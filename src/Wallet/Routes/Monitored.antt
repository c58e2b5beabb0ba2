-- ===== src/Wallet/Routes/Monitored.antt =====
-- The addresses that a watcher is given: each belongs to one user.
use escrow_hub.Common.{
  if◌then◌else◌, Option, none, map, ℕ, ◌≡◌, refl, sym, ap, ap₂, subst, ◌∙◌, true, false, ◌&&◌, some,
  List, [], ◌∷◌, ==_iff, arith, Bool-cases, inl, inr,
}
use escrow_hub.Text.{is_empty, Text, text_eq, text_eq_refl, text_eq_sound}
use escrow_hub.Asset.{chain_family, asset_eq, asset_eq_sound, Asset, ChainFamily}
use escrow_hub.Outcome.{raise_if, ok, ok-injective, >>=-eq-ok}
use escrow_hub.Outside.{Outside}
use escrow_hub.Table.{Table}
use escrow_hub.Outcome
use escrow_hub.Db.{Db, WalletAddress}
use escrow_hub.Wallet.Vault.{Vault}
use escrow_hub.Wallet.Vault.{decrypt_text, decrypt_field}
use escrow_hub.Wallet.Routes.{
  normalize_address_for_chain, address_fingerprint, differs, text_or_empty, address_user,
  monitored_deposit_address_map, Parsed, Watched, family_eq, parsed_route_row, user_seen,
  of_another, watch_row, mem_asset, watched_rows,
}

-- A row of the table.
pub data Stored (row : WalletAddress) : Table WalletAddress → Type 0 where
  newest : {id : ℕ} {older : Table WalletAddress} → Stored row ((id, row) ∷ older)
  older_row :
      {id : ℕ} {r : WalletAddress} {older : Table WalletAddress}
      → Stored row older
      → Stored row ((id, r) ∷ older)

family_eq_refl : (f : ChainFamily) → family_eq f f ≡ true
family_eq_refl ChainFamily.btc_chain = refl
family_eq_refl ChainFamily.ltc_chain = refl
family_eq_refl ChainFamily.ethereum = refl
family_eq_refl ChainFamily.solana = refl

family_eq_sound : (f g : ChainFamily) → family_eq f g ≡ true → f ≡ g
family_eq_sound ChainFamily.btc_chain g h = ground arith
family_eq_sound ChainFamily.ltc_chain g h = ground arith
family_eq_sound ChainFamily.ethereum g h = ground arith
family_eq_sound ChainFamily.solana g h = ground arith

same_user :
    (user_id other : ℕ) → of_another user_id (some other) ≡ false → some user_id ≡ some other
same_user user_id other h = ap some (sym ((==_iff other user_id).0 (ground arith)))

abbrev entry_of : ℕ → Parsed → Watched
entry_of user_id parsed = record {
  chain_family = parsed.route.chain_family;
  address = parsed.normalized;
  user_id = user_id;
}

-- What a row adds: its own entry, with no other user's under the key.
watch_row-ok :
    (user_id : ℕ) (parsed : Parsed) (seen : List Watched) {out : List Watched}
    → watch_row user_id parsed seen ≡ ok out
    → (of_another user_id (user_seen parsed.route.chain_family parsed.normalized seen) ≡ false)
      × (out ≡ entry_of user_id parsed ∷ seen)
unfolding watch_row
watch_row-ok user_id parsed seen returns =
    elim (Bool-cases
      (of_another user_id (user_seen parsed.route.chain_family parsed.normalized seen))) [
        | inl e ↦ absurd (ground arith)
        | inr e ↦ (e, sym (ok-injective (rw e at returns)))
      ]

-- An entry stays what it is when a row is added.
seen_later :
    (family : ChainFamily) (address : Text) (w : Watched) (seen : List Watched) {user_id : ℕ}
    → of_another w.user_id (user_seen w.chain_family w.address seen) ≡ false
    → user_seen family address seen ≡ some user_id
    → user_seen family address (w ∷ seen) ≡ some user_id
unfolding user_seen
seen_later family address w seen {user_id} alone known =
    elim (Bool-cases (family_eq w.chain_family family && text_eq w.address address)) [
      | inr e ↦ rw e known
      | inl e ↦
          let same_family : w.chain_family ≡ family = family_eq_sound _ _ (ground arith) in
          let same_address : w.address ≡ address = text_eq_sound _ _ (ground arith) in
          let prior : user_seen w.chain_family w.address seen ≡ some user_id =
            ap₂ (λ f a. user_seen f a seen) same_family same_address ∙ known in
          let own : some w.user_id ≡ some user_id =
            same_user w.user_id user_id (ap (of_another w.user_id) (sym prior) ∙ alone) in
          rw e own
    ]

seen_now :
    (w : Watched) (seen : List Watched)
    → user_seen w.chain_family w.address (w ∷ seen) ≡ some w.user_id
unfolding user_seen
seen_now w seen = rw (family_eq_refl w.chain_family, text_eq_refl w.address) refl

-- A row that was read, and whose the map says it is.
pub record Owned (o : Outside) (v : Vault) (row : WalletAddress) (watched : List Watched)
    : Type 0 where
  pub parsed : Parsed
  pub read : parsed_route_row o v row ≡ ok parsed
  pub owner : user_seen parsed.route.chain_family parsed.normalized watched ≡ some row.user_id

-- The table by chain family and address behind the map.
watched_rows-owner :
    (o : Outside) (v : Vault) (assets : List Asset) (rows : Table WalletAddress)
    (row : WalletAddress) {watched : List Watched}
    → watched_rows o v assets rows ≡ ok watched
    → Stored row rows
    → mem_asset row.asset assets ≡ true
    → Owned o v row watched
unfolding watched_rows
watched_rows-owner o v assets [] row {watched = watched} returns stored wanted = elim stored [ ]
watched_rows-owner o v assets ((id, r) ∷ older) row {watched} returns newest wanted =
    let (seen, earlier, rest) =
      >>=-eq-ok (watched_rows o v assets older) _ (rw wanted at returns) in
    let (parsed, read, added) = >>=-eq-ok (parsed_route_row o v row) _ rest in
    let (alone, out) = watch_row-ok row.user_id parsed seen added in
    record {
      parsed = parsed;
      read = read;
      owner =
          subst
            (λ (ws : List Watched).
              user_seen parsed.route.chain_family parsed.normalized ws ≡ some row.user_id)
            (sym out) (seen_now (entry_of row.user_id parsed) seen);
    }
watched_rows-owner o v assets ((id, r) ∷ older) row {watched} returns (older_row stored) wanted =
    elim (Bool-cases (mem_asset r.asset assets)) [
      | inr e ↦ watched_rows-owner o v assets older row (rw e at returns) stored wanted
      | inl e ↦
          let (seen, earlier, rest) =
            >>=-eq-ok (watched_rows o v assets older) _ (rw e at returns) in
          let (parsed, read, added) = >>=-eq-ok (parsed_route_row o v r) _ rest in
          let (alone, out) = watch_row-ok r.user_id parsed seen added in
          let own = watched_rows-owner o v assets older row earlier stored wanted in
          record {
            parsed = own.parsed;
            read = own.read;
            owner =
                subst
                  (λ (ws : List Watched).
                    user_seen own.parsed.route.chain_family own.parsed.normalized ws
                    ≡ some row.user_id)
                  (sym out)
                  (seen_later own.parsed.route.chain_family own.parsed.normalized
                    (entry_of r.user_id parsed) seen alone own.owner);
          }
    ]

-- `dict.get`: the last that was set stands first.
abbrev pub owner_in : Text → List (Text × ℕ) → Option ℕ
owner_in address [] = none
owner_in address ((a, user_id) ∷ entries) =
    let rest = owner_in address entries in if text_eq a address then some user_id else rest

-- What the trigger on wallet_addresses asks of a row's asset and chain family.
abbrev pub AllMatch : Table WalletAddress → Type 0
AllMatch [] = Unit {0}
AllMatch ((id, row) ∷ rows) = (row.chain_family ≡ chain_family row.asset) × AllMatch rows

-- Assets of one chain, such as those that a watcher asks for.
abbrev pub OfFamily : ChainFamily → List Asset → Type 0
OfFamily f [] = Unit {0}
OfFamily f (a ∷ assets) = (chain_family a ≡ f) × OfFamily f assets

abbrev InFamily : ChainFamily → List Watched → Type 0
InFamily f [] = Unit {0}
InFamily f (w ∷ watched) = (w.chain_family ≡ f) × InFamily f watched

mem_family :
    (f : ChainFamily) (a : Asset) (assets : List Asset)
    → OfFamily f assets
    → mem_asset a assets ≡ true
    → chain_family a ≡ f
mem_family f a [] h m = absurd (cc)
mem_family f a (b ∷ assets) (here, rest) m = elim (Bool-cases (asset_eq b a)) [
  | inl e ↦ ap chain_family (sym (asset_eq_sound b a e)) ∙ here
  | inr e ↦ mem_family f a assets rest (rw e at m)
]

own_family :
    (row : WalletAddress) (rows : Table WalletAddress)
    → AllMatch rows
    → Stored row rows
    → row.chain_family ≡ chain_family row.asset
own_family row ((id, r) ∷ rows) (own, match) newest = own
own_family row ((id, r) ∷ rows) (own, match) (older_row stored) = own_family row rows match stored
own_family row [] match stored = elim stored [ ]

parsed-family :
    (o : Outside) (v : Vault) (row : WalletAddress) {parsed : Parsed}
    → parsed_route_row o v row ≡ ok parsed
    → parsed.route.chain_family ≡ row.chain_family
unfolding parsed_route_row
parsed-family o v row read =
    let (decrypted, _, a) = >>=-eq-ok (decrypt_text v row.address) _ read in
    let (_, _, b) = >>=-eq-ok (raise_if (is_empty decrypted) Outcome.empty_wallet_address) _ a in
    let (normalized, _, c) =
      >>=-eq-ok (normalize_address_for_chain o.libraries row.chain_family decrypted) _ b in
    let (_, _, d) =
      >>=-eq-ok
        (raise_if
          (differs (text_or_empty row.address_fingerprint)
            (address_fingerprint o row.chain_family normalized))
          Outcome.fingerprint_mismatch)
        _ c in
    let (path, _, e) = >>=-eq-ok (decrypt_field v row.derivation_path) _ d in
    sym (ap (λ p. p.route.chain_family) (ok-injective e))

watched-family :
    (o : Outside) (v : Vault) (f : ChainFamily) (assets : List Asset) (rows : Table WalletAddress)
    {watched : List Watched}
    → AllMatch rows
    → OfFamily f assets
    → watched_rows o v assets rows ≡ ok watched
    → InFamily f watched
unfolding watched_rows
watched-family o v f assets [] match family returns = subst (InFamily f) (ok-injective returns) tt
watched-family o v f assets ((id, r) ∷ older) (own, match) family returns =
    elim (Bool-cases (mem_asset r.asset assets)) [
      | inr e ↦ watched-family o v f assets older match family (rw e at returns)
      | inl e ↦
          let (seen, earlier, rest) =
            >>=-eq-ok (watched_rows o v assets older) _ (rw e at returns) in
          let (parsed, read, added) = >>=-eq-ok (parsed_route_row o v r) _ rest in
          let (alone, out) = watch_row-ok r.user_id parsed seen added in
          let here = parsed-family o v r read ∙ own ∙ mem_family f r.asset assets family e in
          subst (InFamily f) (sym out)
            (here, watched-family o v f assets older match family earlier)
    ]

-- In one family the address alone is the key.
owner_in-seen :
    (f : ChainFamily) (address : Text) (watched : List Watched)
    → InFamily f watched
    → owner_in address (map address_user watched) ≡ user_seen f address watched
unfolding user_seen
owner_in-seen f address [] h = refl
owner_in-seen f address (w ∷ watched) (here, rest) =
    rw (here, family_eq_refl f, owner_in-seen f address watched rest) refl

-- A row that was read, and whose the map of addresses says it is.
pub record Owns (o : Outside) (v : Vault) (row : WalletAddress) (users : List (Text × ℕ))
    : Type 0 where
  pub parsed : Parsed
  pub read : parsed_route_row o v row ≡ ok parsed
  pub owner : owner_in parsed.normalized users ≡ some row.user_id

-- If the map of monitored deposit addresses is made for assets of one chain, as every watcher asks
-- for, and every stored row has its asset's chain family, then every stored row of these assets
-- can be read, and under its address the map has the row's own user: no address is watched for two
-- users.
pub monitored_deposit_address_map-owner :
    (o : Outside) (v : Vault) (f : ChainFamily) (assets : List Asset) (db : Db)
    (row : WalletAddress) {users : List (Text × ℕ)}
    → AllMatch db.wallet_addresses
    → OfFamily f assets
    → monitored_deposit_address_map o v assets db ≡ ok users
    → Stored row db.wallet_addresses
    → mem_asset row.asset assets ≡ true
    → Owns o v row users
unfolding monitored_deposit_address_map
monitored_deposit_address_map-owner o v f assets db row match family returns stored wanted =
    let (watched, made, out) = >>=-eq-ok (watched_rows o v assets db.wallet_addresses) _ returns in
    let own = watched_rows-owner o v assets db.wallet_addresses row made stored wanted in
    let within = watched-family o v f assets db.wallet_addresses match family made in
    let same : own.parsed.route.chain_family ≡ f =
      parsed-family o v row own.read
      ∙ own_family row db.wallet_addresses match stored
      ∙ mem_family f row.asset assets family wanted in
    record {
      parsed = own.parsed;
      read = own.read;
      owner =
          ap (owner_in own.parsed.normalized) (sym (ok-injective out))
          ∙ owner_in-seen f own.parsed.normalized watched within
          ∙ ap (λ g. user_seen g own.parsed.normalized watched) (sym same)
          ∙ own.owner;
    }
