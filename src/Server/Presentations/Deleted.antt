-- ===== src/Server/Presentations/Deleted.antt =====
-- What the deletion of a presentation transaction leaves.
use vcknots.Common.{
  Bool, Bool-cases, Option, String, ap, arith, inl, inr, none, refl, some, subst, sym, ◌=ˢ◌, ◌∙◌,
  ◌≡◌,
}
use vcknots.Errors.{Result, ok, err}
use vcknots.Common.Map
use vcknots.Store.Transactions
use vcknots.Authz.AccessToken.{truthy}
use vcknots.Verifier.State.{Verifier}
use vcknots.Verifier.Present.{TransactionView, get_transaction, delete_transaction}
use vcknots.Server.Types.{Response}
use vcknots.Server.ErrorHandler.{handle_error}
use vcknots.Server.DirectPost.{States}
use vcknots.Server.Callback.{VerifierServer}
use vcknots.Server.Callback.Replayed.{error_status-ne, consume-absent}
use vcknots.Server.Presentations.{path_parameter, release, drop_result, drop_transaction}

deleted-absent :
    {M : Type 0} (id : String) (flow : Verifier M)
    → Map.get id (delete_transaction id flow).1.transactions ≡ none
unfolding delete_transaction Transactions.delete
deleted-absent id flow = Map.get-delete_same id flow.transactions

drop_result-ok :
    {M : Type 0} (id : String) (states : States) (result : Result TransactionView × Verifier M)
    {r : Response Bool} {t : VerifierServer M}
    → drop_result id states result ≡ (r, t)
    → r.status ≡ 200
    → (view : TransactionView) × (result.0 ≡ ok view)
      × (Map.get id t.flow.transactions ≡ none)
      × (t.states ≡ release (truthy view.state) states)
unfolding drop_result
drop_result-ok id states (err e, flow) h h200 =
    elim (error_status-ne (handle_error e) (ap (λ x. x.0.status) h ∙ h200)) [ ]
drop_result-ok id states (ok view, flow) h h200 = (
  view,
  refl,
  ap (λ x. Map.get id x.1.flow.transactions) (sym h) ∙ deleted-absent id flow,
  ap (λ x. x.1.states) (sym h),
)

release-absent :
    (k : String) (state : Option String) (states : States)
    → state ≡ some k
    → Map.get k (release state states) ≡ none
release-absent k none states e = absurd (cc e)
release-absent k (some j) states e =
    let same : j ≡ k = cc e in
    subst (λ i. Map.get i (release (some j) states) ≡ none) same (consume-absent j states)

-- A deletion that is answered with status 200 names a transaction that is there at the time; then the
-- transaction is gone, and its state, if it has one that is not empty, stands for nothing.
pub drop_transaction-Deleted :
    {M : Type 0} (parameter : Option String) (s t : VerifierServer M) (r : Response Bool)
    → drop_transaction parameter s ≡ (r, t)
    → r.status ≡ 200
    → let id = path_parameter parameter in
      (view : TransactionView) × ((get_transaction id s.flow).0 ≡ ok view)
      × (Map.get id t.flow.transactions ≡ none)
      × ((k : String) → truthy view.state ≡ some k → Map.get k t.states ≡ none)
unfolding drop_transaction
drop_transaction-Deleted parameter s t r h h200 =
    elim (Bool-cases (path_parameter parameter =ˢ "")) [
      | inl e ↦
          let wrong = ap (λ x. x.0.status) (rw (e, drop_transaction) at h) ∙ h200 in
          absurd (omega (arith, wrong))
      | inr e ↦
          let (view, found, gone, states) =
            drop_result-ok (path_parameter parameter) s.states
              (get_transaction (path_parameter parameter) s.flow) (rw (e, drop_transaction) at h)
              h200 in
          (
            view,
            found,
            gone,
            λ k named. ap (Map.get k) states ∙ release-absent k (truthy view.state) s.states named,
          )
    ]
