-- ===== src/Provider/Replay.antt =====
-- A repeated request to the provider.
use escrow_hub.Common.{◌≡◌, refl, true, false, none, some, arith, ==_refl}
use escrow_hub.Text.{text_eq_refl}
use escrow_hub.Asset.{asset_eq_refl}
use escrow_hub.Outcome.{ok}
use escrow_hub.Outside.{Outside}
use escrow_hub.Table.{find_where}
use escrow_hub.Tenant.{is_some}
use escrow_hub.Provider.Store.{
  ProviderStore, ExecuteRequest, get_by_idempotency, get_by_provider_ref, submitted_record,
  add_record, create_submitted,
}
use escrow_hub.Provider.Handlers.{record_matches, record_to_response, execute_request}

submitted-matches :
    (o : Outside) (q : ExecuteRequest) → record_matches (submitted_record o q) q ≡ true
unfolding record_matches
submitted-matches o q =
    rw
      (
        ==_refl q.withdrawal_id,
        ==_refl q.user_id,
        asset_eq_refl q.asset,
        text_eq_refl q.amount,
        text_eq_refl q.destination_address,
      )
      refl

module _ (o : Outside) (q : ExecuteRequest) (s : ProviderStore) where
  abbrev added : ProviderStore
  added = add_record (submitted_record o q) s

  added_by_key : get_by_idempotency q.idempotency_key added ≡ some (submitted_record o q)
  unfolding get_by_idempotency find_where
  added_by_key = rw (text_eq_refl q.idempotency_key) refl

  added_by_ref :
      get_by_provider_ref (submitted_record o q).provider_ref added ≡ some (submitted_record o q)
  unfolding get_by_provider_ref find_where
  added_by_ref = rw (text_eq_refl (submitted_record o q).provider_ref) refl

  created :
      get_by_idempotency q.idempotency_key s ≡ none
      → is_some (get_by_provider_ref (submitted_record o q).provider_ref s) ≡ false
      → execute_request o q s ≡ (ok (record_to_response (submitted_record o q)), added)
  unfolding execute_request create_submitted
  created fresh free = let found = added_by_ref in ground arith

  -- A request with a key and a reference that the provider does not have is queued, and the
  -- same request sent again, at any later time and whatever else is then outside, is answered in
  -- the same words and queues nothing more.
  pub execute_request_again :
      (later : Outside)
      → get_by_idempotency q.idempotency_key s ≡ none
      → is_some (get_by_provider_ref (submitted_record o q).provider_ref s) ≡ false
      → (execute_request o q s ≡ (ok (record_to_response (submitted_record o q)), added))
        × (execute_request later q (execute_request o q s).1 ≡ execute_request o q s)
  execute_request_again later fresh free = let first = created fresh free in (first, rw first again)
    where
      again :
          execute_request later q added ≡ (ok (record_to_response (submitted_record o q)), added)
      again =
          let found = added_by_key in
          let matches = submitted-matches o q in unfold execute_request in ground arith
