-- ===== src/Update/Handler/Once.antt =====
-- A proof moves an identity once.
use protocol_core.Base.{◌≡◌, ◌≢◌, sym, ap, ◌∙◌, Bool, true, false, Option, ok}
use protocol_core.Base.Int.{ℤ}
use protocol_core.Base.Words.{Bytes}
use protocol_core.Chain.{Pubkey}
use protocol_core.Receipt.Digest.{UpdateReceiptArgs}
use protocol_core.Update.State.{Environment, Anchor, IdentityState}
use protocol_core.Update.Proofs.{Checked}
use protocol_core.Update.Proofs.Laws.{unbound_result_lem}
use protocol_core.Update.Proofs.Bound.{bound_result_lem}
use protocol_core.Update.Handler.{check_result, process_anchor_update}
use protocol_core.Update.Handler.Laws.{grow_lem, process_anchor_update_lem}

-- Either branch takes its result from the verifier program.
result_owner :
    (env : Environment) (is_bound : Bool) (wallet : Pubkey) (now : ℤ) (i : IdentityState)
    (w : Anchor) {c : Checked}
    → check_result env is_bound wallet now i w ≡ ok c
    → w.result.owner ≡ env.verifier_id
unfolding check_result
result_owner env true wallet now i w e =
    (bound_result_lem env wallet now w.identity.key i w.result w.request_state e).2
result_owner env false wallet now i w e =
    (unbound_result_lem env wallet now w.result w.request_state.data_bytes e).0

-- After an update no other one succeeds with the same result account, whoever signs it, at whatever
-- time, with whatever receipt, in whatever transaction and through whichever instruction, as long as
-- the verifier is not the system program: the account has been closed.
pub process_anchor_update_once :
    (env env' : Environment) (wallet wallet' : Pubkey) (now now' : ℤ)
    (receipt receipt' : UpdateReceiptArgs) (expected expected' : Option Bytes)
    (is_bound is_bound' : Bool) (w t s : Anchor)
    → process_anchor_update env wallet now receipt expected is_bound w ≡ ok t
    → env.system_program ≢ env'.verifier_id
    → process_anchor_update env' wallet' now' receipt' expected' is_bound' t ≢ ok s
process_anchor_update_once env env' wallet wallet' now now' receipt receipt' expected expected'
      is_bound is_bound' w t s e h f =
    let first = process_anchor_update_lem env wallet now receipt expected is_bound w e in
    let second = process_anchor_update_lem env' wallet' now' receipt' expected' is_bound' t f in
    let kept = (grow_lem env' wallet' t second.grown second.grows).1 in
    let owner = result_owner env' is_bound' wallet' now' second.before second.grown second.proved in
    h (sym first.disowned ∙ sym (ap (λ a. a.owner) kept) ∙ owner)
