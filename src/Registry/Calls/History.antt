-- ===== src/Registry/Calls/History.antt =====
-- What holds after any history of instructions, failed ones included.
use protocol_core.Base.{
  ◌≡◌, ◌≢◌, ◌≤◌, refl, sym, inl, inr, arith, List, [], ◌∷◌, Result, Result-cases, ok, err, length,
  subst,
}
use protocol_core.Chain.{Chain}
use protocol_core.Registry.Config.{ProtocolConfig, IsConfig, config_len}
use protocol_core.Registry.State.{Registry, Program, default_pubkey, config_of}
use protocol_core.Registry.Keys.{grace_window}
use protocol_core.Registry.Setup.Laws.{initialize_protocol_lem}
use protocol_core.Registry.Keys.Laws.{grace_window_lem}
use protocol_core.Registry.Calls.{
  Call, initialize, update_config, set_key, rotate_key, propose, accept, migrate, set_versions,
  withdraw, register, unstake, compute, exec, run, after,
}
use protocol_core.Registry.Calls.Spec.{spec, Permitted, IsCall}
use protocol_core.Registry.Calls.Refine.{IsReady, exec_refines}

-- The versions form a window and the validator key is set.
pub record IsSound (c : ProtocolConfig) : Type 0 where
  pub config : IsConfig c
  pub window : c.minimum_supported_projection_version ≤ c.current_projection_version
  pub keyed : c.validator_pubkey ≢ default_pubkey

-- The versions of the one are not above those of the other.
abbrev pub Advances : ProtocolConfig → ProtocolConfig → Type 0
Advances c d =
    (c.current_projection_version ≤ d.current_projection_version)
    × (c.minimum_supported_projection_version ≤ d.minimum_supported_projection_version)

-- Every call that succeeds on an initialized account, but another initialization.
abbrev pub IsLater : Call → Type 0
IsLater (initialize admin args) = ⊥
IsLater _ = Unit

spec-IsSound :
    (program : Program) (call : Call) (c : ProtocolConfig)
    → IsLater call
    → IsCall program call
    → Permitted call c
    → IsSound c
    → IsSound (spec program call c) × Advances c (spec program call c)
unfolding spec
spec-IsSound program (initialize admin args) c l h p v = elim l [ ]
spec-IsSound program (update_config admin fee) c l h p v = ground arith
spec-IsSound program (set_key admin k) c l h p v = ground arith
spec-IsSound program (rotate_key admin k grace now) c l h p v =
    elim (Result-cases (grace_window c.validator_pubkey k now grace)) [
      | inl (w, g) ↦
          ground (arith, grace_window_lem c.validator_pubkey k now grace v.config.validator_size g)
      | inr (x, g) ↦ ground arith
    ]
spec-IsSound program (propose admin k) c l h p v = ground arith
spec-IsSound program (accept signer) c l h p v = ground arith
spec-IsSound program (migrate programdata signer) c l h p v = ground arith
spec-IsSound program (set_versions admin current minimum) c l h p v = ground arith
spec-IsSound program (withdraw admin amount) c l h p v = ground arith
spec-IsSound program (register validator stake now) c l h p v = ground arith
spec-IsSound program (unstake validator) c l h p v = ground arith
spec-IsSound program (compute count creation stamps now) c l h p v = ground arith

-- An initialized account: the full layout, holding a sound configuration.
pub record IsLive (r : Registry) : Type 0 where
  pub full : length r.data_bytes ≡ config_len
  pub sound : IsSound (config_of r)

abbrev pub AllCalls : Program → List Call → Type 0
AllCalls program [] = Unit
AllCalls program (c ∷ cs) = IsCall program c × AllCalls program cs

module _ (chain : Chain) (program : Program) (tag : length program.discriminator ≡ 8) where
  -- Another initialization of a live account is refused.
  later :
      (c : Call) (r s : Registry)
      → IsLive r
      → IsCall program c
      → exec chain program c r ≡ ok s
      → IsLater c
  unfolding exec
  later (initialize admin args) r s v h e =
      let p = initialize_protocol_lem chain program r tag admin args h e in
      absurd (omega (arith, v.full, p.2))
  later (update_config _ _) r s v h e = tt
  later (set_key _ _) r s v h e = tt
  later (rotate_key _ _ _ _) r s v h e = tt
  later (propose _ _) r s v h e = tt
  later (accept _) r s v h e = tt
  later (migrate _ _) r s v h e = tt
  later (set_versions _ _ _) r s v h e = tt
  later (withdraw _ _) r s v h e = tt
  later (register _ _ _) r s v h e = tt
  later (unstake _) r s v h e = tt
  later (compute _ _ _ _) r s v h e = tt

  exec-IsLive :
      (c : Call) (r s : Registry)
      → IsLive r
      → IsCall program c
      → exec chain program c r ≡ ok s
      → IsLive s × Advances (config_of r) (config_of s)
  exec-IsLive c r s v h e =
      let ready : IsReady r = record { full = v.full; config = v.sound.config } in
      let (refined, permitted, full) = exec_refines chain program tag c r s ready h e in
      let (sound, advances) =
        spec-IsSound program c (config_of r) (later c r s v h e) h permitted v.sound in
      (
        record { full = full; sound = subst IsSound (sym refined) sound },
        subst (Advances (config_of r)) (sym refined) advances,
      )

  after-IsLive :
      (c : Call) (r : Registry) (o : Result Registry)
      → o ≡ exec chain program c r
      → IsLive r
      → IsCall program c
      → IsLive (after r o) × Advances (config_of r) (config_of (after r o))
  after-IsLive c r (ok s) e v h = exec-IsLive c r s v h (sym e)
  after-IsLive c r (err x) e v h = (v, omega arith)

  -- From an initialized account, after any calls in any order, failed ones included, the account has
  -- the full layout, a configuration within the Rust types' ranges, a validator key that is set and
  -- a minimum version of at most the current one; and neither version has gone back.
  pub run-IsLive :
      (r : Registry) (cs : List Call)
      → AllCalls program cs
      → IsLive r
      → IsLive (run chain program r cs)
        × Advances (config_of r) (config_of (run chain program r cs))
  unfolding run
  run-IsLive r [] h v = (v, omega arith)
  run-IsLive r (c ∷ cs) h v =
      let o = exec chain program c r in
      let (v', a) = after-IsLive c r o refl v h.0 in
      let (v'', b) = run-IsLive (after r o) cs h.1 v' in (v'', omega arith)
