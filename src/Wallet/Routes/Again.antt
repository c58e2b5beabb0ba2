-- ===== src/Wallet/Routes/Again.antt =====
-- A deposit address that has been issued is read back from its encrypted row.
use escrow_hub.Common.{
  ℕ, suc, ◌≡◌, refl, ap, ap₂, ◌∙◌, Bool, true, false, not, ◌&&◌, ◌||◌, none, some, ◌∷◌, [], ◌++◌,
  arith, ==_refl,
}
use escrow_hub.Text.{Text, codes, text_eq_refl, is_empty, starts_with, strip, text_eq}
use escrow_hub.Asset.{Asset, asset_eq_refl, chain_family}
use escrow_hub.Address.{Libraries}
use escrow_hub.Asset.{ChainFamily}
use escrow_hub.Outcome.{ok}
use escrow_hub.Outside.{Outside}
use escrow_hub.Table.{Table, find, find_where}
use escrow_hub.Db.{Db, User, WalletAddress}
use escrow_hub.Wallet.Vault.{Vault, encrypt_field, decrypt_text, decrypt_field}
use escrow_hub.Wallet.Routes.{
  DepositRoute, Parsed, normalize_address_for_chain, address_fingerprint, parsed_route_row, differs,
  route_of, text_or_empty,
}
use escrow_hub.Wallet.Routes.Issue.{
  Prepared, plain_route, issued_row, is_route_of, same_provider, same_fingerprint, route_row,
  insert_wallet_address, store_issued, stored_issued, issue_body, conflicts,
}

-- A vault with a key whose seal can be opened.
pub record Opens (v : Vault) : Type 0 where
  pub keyed : v.has_key ≡ true
  pub opens : (t : Text) → v.unseal (v.seal t) ≡ ok t

abbrev pub sealed : Vault → Text → Text
sealed v t = codes "encv2:" ++ v.seal t

encrypt_field-sealed : (v : Vault) (t : Text) → Opens v → encrypt_field v t ≡ ok (sealed v t)
unfolding encrypt_field
encrypt_field-sealed v t k = rw k.keyed refl

decrypt_text-sealed : (v : Vault) (t : Text) → Opens v → decrypt_text v (sealed v t) ≡ ok t
unfolding decrypt_text starts_with
decrypt_text-sealed v t k = rw (k.keyed) (k.opens t)

not_empty :
    (lib : Libraries) (f : ChainFamily) (t : Text)
    → normalize_address_for_chain lib f t ≡ ok t
    → is_empty t ≡ false
unfolding normalize_address_for_chain strip
not_empty lib f [] h = absurd (cc)
not_empty lib f (c ∷ t) h = refl

differs_self : (t : Text) → differs t t ≡ false
differs_self t =
    rw (text_eq_refl t)
      (elim (is_empty t) as (λ b. (not b && false) ≡ false) [ true ↦ refl | false ↦ refl ])

parsed_lem :
    (o : Outside) (v : Vault) (row : WalletAddress) {decrypted normalized : Text}
    → decrypt_text v row.address ≡ ok decrypted
    → is_empty decrypted ≡ false
    → normalize_address_for_chain o.libraries row.chain_family decrypted ≡ ok normalized
    → differs
        (text_or_empty row.address_fingerprint)
        (address_fingerprint o row.chain_family normalized)
      ≡ false
    → row.derivation_path ≡ none
    → parsed_route_row o v row
      ≡ ok (record {
        route = route_of row normalized none;
        normalized = normalized;
        fingerprint = address_fingerprint o row.chain_family normalized;
      })
unfolding parsed_route_row decrypt_field
parsed_lem o v row opened full normal same bare = ground arith

stored_lem :
    (o : Outside) (v : Vault) (p : Prepared) (row : WalletAddress) {stored : Parsed}
    → parsed_route_row o v row ≡ ok stored
    → (conflicts p row stored || not (text_eq stored.fingerprint p.fingerprint)) ≡ false
    → stored_issued o v p row ≡ ok stored.route
unfolding stored_issued
stored_lem o v p row read same = ground arith

issue_known :
    (o : Outside) (v : Vault) (user_id : ℕ) (asset : Asset) (p : Prepared) (db : Db)
    {row : WalletAddress} {route : DepositRoute}
    → route_row user_id asset db ≡ some row
    → stored_issued o v p row ≡ ok route
    → issue_body o v user_id asset p db ≡ (ok route, db)
unfolding issue_body
issue_known o v user_id asset p db found stored = ground arith

issue_new :
    (o : Outside) (v : Vault) (user_id : ℕ) (asset : Asset) (p : Prepared) (db : Db)
    → route_row user_id asset db ≡ none
    → issue_body o v user_id asset p db ≡ store_issued o v user_id asset p db
unfolding issue_body
issue_new o v user_id asset p db free = ground arith

store_lem :
    (o : Outside) (v : Vault) (user_id : ℕ) (asset : Asset) (p : Prepared) (db : Db)
    {encrypted : Text} {db' : Db}
    → encrypt_field v p.normalized ≡ ok encrypted
    → insert_wallet_address (issued_row user_id asset p encrypted) db ≡ (ok tt, db')
    → store_issued o v user_id asset p db ≡ (ok (plain_route asset p.normalized none), db')
unfolding store_issued
store_lem o v user_id asset p db shut inserted = ground arith

no_row :
    (user_id : ℕ) (asset : Asset) (db : Db)
    → route_row user_id asset db ≡ none
    → find_where (is_route_of user_id asset) db.wallet_addresses ≡ none
unfolding route_row
no_row user_id asset db free = ground arith

find_head :
    (p : WalletAddress → Bool) (id : ℕ) (row : WalletAddress) (rows : Table WalletAddress)
    → p row ≡ true
    → find_where p ((id, row) ∷ rows) ≡ some (id, row)
unfolding find_where
find_head p id row rows h = rw h refl

row_found :
    (user_id : ℕ) (asset : Asset) (db : Db) {id : ℕ} {row : WalletAddress}
    → find_where (is_route_of user_id asset) db.wallet_addresses ≡ some (id, row)
    → route_row user_id asset db ≡ some row
unfolding route_row
row_found user_id asset db found = ground arith

head_row :
    (user_id : ℕ) (asset : Asset) (row : WalletAddress) (db : Db)
    → is_route_of user_id asset row ≡ true
    → route_row user_id asset (record db {
      wallet_addresses = (db.next_wallet_address, row) ∷ db.wallet_addresses;
      next_wallet_address = suc db.next_wallet_address;
    })
      ≡ some row
head_row user_id asset row db h =
    row_found user_id asset _
      (find_head (is_route_of user_id asset) db.next_wallet_address row db.wallet_addresses h)

module _ (o : Outside) (v : Vault) (user_id : ℕ) (asset : Asset) (p : Prepared) (k : Opens v)
    (normal : normalize_address_for_chain o.libraries (chain_family asset) p.normalized
      ≡ ok p.normalized)
    (marked : p.fingerprint ≡ address_fingerprint o (chain_family asset) p.normalized) where
  abbrev pub the_row : WalletAddress
  the_row = issued_row user_id asset p (sealed v p.normalized)

  abbrev parsed_back : Parsed
  parsed_back = record {
    route = plain_route asset p.normalized none;
    normalized = p.normalized;
    fingerprint = address_fingerprint o (chain_family asset) p.normalized;
  }

  read_back : parsed_route_row o v the_row ≡ ok parsed_back
  read_back =
      parsed_lem o v the_row (decrypt_text-sealed v p.normalized k) (not_empty _ _ _ normal) normal
        (ap (λ t. differs t (address_fingerprint o (chain_family asset) p.normalized)) marked
          ∙ differs_self (address_fingerprint o (chain_family asset) p.normalized))
        refl

  same_issue :
      (conflicts p the_row parsed_back || not (text_eq parsed_back.fingerprint p.fingerprint))
      ≡ false
  same_issue =
      rw
        (
          marked,
          text_eq_refl p.normalized,
          text_eq_refl p.issued.provider_origin,
          text_eq_refl p.issued.provider_ref,
          text_eq_refl (address_fingerprint o (chain_family asset) p.normalized),
        )
        refl

  stored_back : stored_issued o v p the_row ≡ ok (plain_route asset p.normalized none)
  stored_back = stored_lem o v p the_row read_back same_issue

  unfoldable pub after_issue : Db → Db
  after_issue db = record db {
    wallet_addresses = (db.next_wallet_address, the_row) ∷ db.wallet_addresses;
    next_wallet_address = suc db.next_wallet_address;
  }

  first_insert :
      (db : Db) {known : User}
      → find user_id db.users ≡ some known
      → find_where (is_route_of user_id asset) db.wallet_addresses ≡ none
      → find_where (same_fingerprint the_row) db.wallet_addresses ≡ none
      → find_where (same_provider the_row) db.wallet_addresses ≡ none
      → insert_wallet_address the_row db ≡ (ok tt, after_issue db)
  unfolding insert_wallet_address after_issue
  first_insert db known free unassigned unbound = rw (known, free, unassigned, unbound) refl

  found_row : (db : Db) → route_row user_id asset (after_issue db) ≡ some the_row
  unfolding after_issue
  found_row db =
      head_row user_id asset the_row db (ap₂ ◌&&◌ (==_refl user_id) (asset_eq_refl asset))

  -- In production, with a vault that opens what it seals, an issued address that is normal and
  -- that no other user has on its chain, and a provider's reference that is new, the first issue for
  -- a user that exists and an asset stores the address encrypted and returns its route; the same
  -- issue again finds that row, returns the same route and writes nothing.
  pub issue_body_again :
      (db : Db) {known : User}
      → find user_id db.users ≡ some known
      → route_row user_id asset db ≡ none
      → find_where (same_fingerprint the_row) db.wallet_addresses ≡ none
      → find_where (same_provider the_row) db.wallet_addresses ≡ none
      → (issue_body o v user_id asset p db
          ≡ (ok (plain_route asset p.normalized none), after_issue db))
        × (issue_body o v user_id asset p (after_issue db)
            ≡ (ok (plain_route asset p.normalized none), after_issue db))
  issue_body_again db known free unassigned unbound = (
    issue_new o v user_id asset p db free
        ∙ store_lem o v user_id asset p db (encrypt_field-sealed v p.normalized k)
            (first_insert db known (no_row user_id asset db free) unassigned unbound),
    issue_known o v user_id asset p (after_issue db) (found_row db) stored_back,
  )
