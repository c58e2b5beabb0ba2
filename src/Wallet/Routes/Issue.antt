-- ===== src/Wallet/Routes/Issue.antt =====
-- wallet_service.py: `get_or_create_deposit_address`, and the check of an issued address. The remote
-- address provider and the derivation of keys are arguments.
use escrow_hub.Common.{
  ℕ, suc, Bool, not, ◌&&◌, ◌||◌, Option, none, some, ◌∷◌, ◌++◌, if◌then◌else◌, ◌==◌,
}
use escrow_hub.Text.{Text, codes, is_empty, text_eq, strip}
use escrow_hub.Asset.{Asset, name, asset_eq, chain_family}
use escrow_hub.Address.{Libraries}
use escrow_hub.Outcome.{
  Error, Result, ok, err, route_conflict, invalid_deposit_address, integrity_error,
}
use escrow_hub.Outcome
use escrow_hub.Outside.{Outside}
use escrow_hub.Table.{find, find_where}
use escrow_hub.Tenant.{is_some}
use escrow_hub.Db.{Db, Action, pure, raise, gets, lift, ◌>>=◌, ◌>>◌, WalletAddress}
use escrow_hub.Db.Transaction.{Call, transaction, reads}
use escrow_hub.Db.Transaction
use escrow_hub.Wallet.Addresses.{validate_withdrawal_address}
use escrow_hub.Wallet.Deposits.{ensure_user_statement}
use escrow_hub.Wallet.Vault.{Vault, encrypt_field}
use escrow_hub.Wallet.Routes.{
  family_eq, DepositRoute, Parsed, normalize_address_for_chain, address_fingerprint,
  parsed_route_row, text_or_empty,
}

-- What the address provider issues.
pub record Issued : Type 0 where
  pub address : Text
  pub provider_origin : Text
  pub provider_ref : Text

-- What HDWalletDeriver derives.
pub record Derived : Type 0 where
  pub public_address : Text
  pub path : Text

pub record Issuer : Type 0 where
  pub get_or_create_address : ℕ → Asset → Result Issued
  pub derive : Asset → ℕ → Result Derived

unfoldable pub validate_deposit_address : Libraries → Asset → Text → Result (Unit {0})
validate_deposit_address lib asset deposit_address =
    let address = strip deposit_address in
    Outcome.◌>>◌ (Outcome.raise_if (is_empty address) invalid_deposit_address)
      (elim (validate_withdrawal_address lib asset address) [
        | ok a ↦ ok a
        | err e ↦ err invalid_deposit_address
      ])

-- An issued address that has passed the checks.
pub record Prepared : Type 0 where
  pub issued : Issued
  pub normalized : Text
  pub fingerprint : Text

unfoldable pub prepare : Outside → Issuer → ℕ → Asset → Result Prepared
prepare o issuer user_id asset =
    Outcome.◌>>=◌ (issuer.get_or_create_address user_id asset) λ issued.
      Outcome.◌>>◌ (validate_deposit_address o.libraries asset issued.address) (
        Outcome.◌>>=◌ (normalize_address_for_chain o.libraries (chain_family asset) issued.address)
          λ normalized. ok (record {
            issued = issued;
            normalized = normalized;
            fingerprint = address_fingerprint o (chain_family asset) normalized;
          }))

abbrev pub is_route_of : ℕ → Asset → WalletAddress → Bool
is_route_of user_id asset row = row.user_id == user_id && asset_eq row.asset asset

unfoldable pub route_row : ℕ → Asset → Db → Option WalletAddress
route_row user_id asset db = elim (find_where (is_route_of user_id asset) db.wallet_addresses) [
  | none ↦ none
  | some (_, row) ↦ some row
]

unfoldable pub route_from_row : Outside → Vault → WalletAddress → Result DepositRoute
route_from_row o v row = Outcome.◌>>=◌ (parsed_route_row o v row) λ parsed. ok parsed.route

-- The partial UNIQUE index on (provider_origin, provider_ref).
abbrev pub same_provider : WalletAddress → WalletAddress → Bool
same_provider row other =
    not (is_empty (text_or_empty row.provider_origin))
    && not (is_empty (text_or_empty row.provider_ref))
    && text_eq (text_or_empty other.provider_origin) (text_or_empty row.provider_origin)
    && text_eq (text_or_empty other.provider_ref) (text_or_empty row.provider_ref)

-- What trg_wallet_addresses_chain_fp_user_guard_ins looks for: the fingerprint of another user's.
abbrev pub same_fingerprint : WalletAddress → WalletAddress → Bool
same_fingerprint row other =
    not (is_empty (text_or_empty row.address_fingerprint))
    && family_eq other.chain_family row.chain_family
    && text_eq (text_or_empty other.address_fingerprint) (text_or_empty row.address_fingerprint)
    && not (other.user_id == row.user_id)

-- INSERT INTO wallet_addresses, which the foreign key, the UNIQUE columns and the triggers may
-- refuse. The trigger on the provider's reference refuses less than its UNIQUE index, and the one on
-- the asset's chain family nothing that is inserted here.
unfoldable pub insert_wallet_address : WalletAddress → Action (Unit {0})
insert_wallet_address row db =
    if not (is_some (find row.user_id db.users))
      || is_some (find_where (is_route_of row.user_id row.asset) db.wallet_addresses)
      || is_some (find_where (same_fingerprint row) db.wallet_addresses)
      || is_some (find_where (same_provider row) db.wallet_addresses)
    then (err integrity_error, db)
    else (
      ok tt,
      record db {
        wallet_addresses = (db.next_wallet_address, row) ∷ db.wallet_addresses;
        next_wallet_address = suc db.next_wallet_address;
      },
    )

-- A stored route that is not the issued one.
abbrev pub conflicts : Prepared → WalletAddress → Parsed → Bool
conflicts p row stored =
    not (text_eq stored.route.address p.normalized)
    || not (text_eq (text_or_empty row.provider_origin) p.issued.provider_origin)
    || not (text_eq (text_or_empty row.provider_ref) p.issued.provider_ref)

abbrev pub plain_route : Asset → Text → Option Text → DepositRoute
plain_route asset address path = record {
  address = address;
  asset = asset;
  chain_family = chain_family asset;
  destination_tag = none;
  derivation_path = path;
}

-- The stored route, in production only where it is the issued one.
unfoldable pub stored_issued : Outside → Vault → Prepared → WalletAddress → Result DepositRoute
stored_issued o v p row = Outcome.◌>>=◌ (parsed_route_row o v row) λ stored.
    Outcome.◌>>◌
      (Outcome.raise_if (conflicts p row stored || not (text_eq stored.fingerprint p.fingerprint))
        route_conflict)
      (ok stored.route)

-- `except sqlite3.IntegrityError`: the row that another writer has made, if there is one.
unfoldable pub after_refusal : Outside → Vault → ℕ → Asset → Prepared → Error → Action DepositRoute
unfolding route_row
after_refusal o v user_id asset p e = do
  row ← gets (route_row user_id asset)
  elim row [
    | none ↦ raise e
    | some r ↦ lift (
        Outcome.◌>>=◌ (parsed_route_row o v r) λ stored.
          Outcome.◌>>◌ (Outcome.raise_if (conflicts p r stored) route_conflict) (ok stored.route))
  ]

abbrev pub issued_row : ℕ → Asset → Prepared → Text → WalletAddress
issued_row user_id asset p encrypted = record {
  user_id = user_id;
  asset = asset;
  chain_family = chain_family asset;
  address = encrypted;
  address_fingerprint = some p.fingerprint;
  derivation_index = none;
  destination_tag = none;
  derivation_path = none;
  provider_origin = some p.issued.provider_origin;
  provider_ref = some p.issued.provider_ref;
}

abbrev pub catch_refusal :
    Action (Unit {0}) → (Error → Action DepositRoute) → DepositRoute → Action DepositRoute
catch_refusal insert refused route db =
    let (r, db') = insert db in elim r [ ok _ ↦ (ok route, db') | err e ↦ refused e db' ]

unfoldable pub store_issued : Outside → Vault → ℕ → Asset → Prepared → Action DepositRoute
unfolding insert_wallet_address
store_issued o v user_id asset p = do
  encrypted ← lift (encrypt_field v p.normalized)
  catch_refusal (insert_wallet_address (issued_row user_id asset p encrypted))
      (after_refusal o v user_id asset p) (plain_route asset p.normalized none)

-- `f"user:{resolved_user_id}:{symbol}"`
abbrev pub legacy_ref : Outside → ℕ → Asset → Text
legacy_ref o user_id asset = codes "user:" ++ o.str_int user_id ++ codes ":" ++ name asset

abbrev pub derived_row : Outside → ℕ → Asset → Text → Text → Text → WalletAddress
derived_row o user_id asset normalized encrypted path = record {
  user_id = user_id;
  asset = asset;
  chain_family = chain_family asset;
  address = encrypted;
  address_fingerprint = some (address_fingerprint o (chain_family asset) normalized);
  derivation_index = some user_id;
  destination_tag = none;
  derivation_path = some path;
  provider_origin = some (codes "legacy_seed");
  provider_ref = some (legacy_ref o user_id asset);
}

unfoldable pub store_derived : Outside → Vault → Issuer → ℕ → Asset → Action DepositRoute
unfolding insert_wallet_address
store_derived o v issuer user_id asset = do
  k ← lift (issuer.derive asset user_id)
  normalized ← lift (normalize_address_for_chain o.libraries (chain_family asset) k.public_address)
  encrypted ← lift (encrypt_field v normalized)
  path ← lift (encrypt_field v k.path)
  insert_wallet_address (derived_row o user_id asset normalized encrypted path)
  pure (plain_route asset normalized (some k.path))

-- The statements of the transaction in production, with what was issued before it.
unfoldable pub issue_body : Outside → Vault → ℕ → Asset → Prepared → Action DepositRoute
issue_body o v user_id asset p = do
  row ← gets (route_row user_id asset)
  elim row [ some r ↦ lift (stored_issued o v p r) | none ↦ store_issued o v user_id asset p ]

-- The same elsewhere.
unfoldable pub derive_body : Outside → Vault → Issuer → ℕ → Asset → Action DepositRoute
derive_body o v issuer user_id asset = do
  row ← gets (route_row user_id asset)
  elim row [ some r ↦ lift (route_from_row o v r) | none ↦ store_derived o v issuer user_id asset ]

-- A user without a route.
abbrev pub new_route : Outside → Vault → Issuer → ℕ → Asset → Call DepositRoute
new_route o v issuer user_id asset =
    if v.is_production
    then Transaction.◌>>=◌ (Transaction.lift (prepare o issuer user_id asset))
        (λ p. transaction (issue_body o v user_id asset p))
    else transaction (derive_body o v issuer user_id asset)

unfoldable pub get_or_create_deposit_address :
    Outside → Vault → Issuer → ℕ → Asset → Call DepositRoute
unfolding route_row route_from_row
get_or_create_deposit_address o v issuer user_id asset =
    Transaction.◌>>=◌ (ensure_user_statement user_id) λ resolved_user_id.
      Transaction.◌>>=◌ (reads (λ db. ok (route_row resolved_user_id asset db))) λ row. elim row [
        | some r ↦ Transaction.lift (route_from_row o v r)
        | none ↦ new_route o v issuer resolved_user_id asset
      ]
