-- ===== src/Recovery/Reset/Counted.antt =====
-- The request counter is the last of a reset's remaining accounts.
use protocol_core.Base.{
  ◌≡◌, refl, ap, sym, subst, ◌∙◌, ◌⊎◌, inl, inr, true, false, none, some, List, [], ◌∷◌, ◌++◌,
  arith, ok, Result-cases, Option-cases, Bool-cases,
}
use protocol_core.Chain.{Pubkey}
use protocol_core.Update.State.{Environment, Anchor}
use protocol_core.Recovery.Shared.{Remaining, advance_counter}
use protocol_core.Recovery.Shared.Laws.{IsFramed, IsFramed-refl, IsCounted, advance_counter_lem}
use protocol_core.Recovery.Reset.{split_last, take_last_counter}

last_of : (rs : List Remaining) → split_last rs ≡ none → rs ≡ []
unfolding split_last
last_of [] e = refl
last_of (r ∷ rs) e = elim (Option-cases (split_last rs)) [
  | inl n ↦ ground arith
  | inr (p, n) ↦ ground arith
]

split_last_lem :
    (rs : List Remaining) {r : Remaining} {left : List Remaining}
    → split_last rs ≡ some (r, left)
    → rs ≡ left ++ (r ∷ [])
unfolding split_last
split_last_lem [] e = ground arith
split_last_lem (r ∷ rs) e = elim (Option-cases (split_last rs)) [
  | inl n ↦ ground (arith, last_of rs n)
  | inr (p, n) ↦ ground (arith, split_last_lem rs n)
]

-- Without the feature no counter is read; with it the last account's moves on, and the others are
-- left.
abbrev pub Counts :
    Environment → Pubkey → List Remaining → List Remaining → Anchor → Anchor → Type 0
Counts env wallet remaining left w t =
    ((env.request_bound_v1 ≡ false) × (remaining ≡ left) × (t ≡ w))
    ⊎ ((env.request_bound_v1 ≡ true)
        × (r : Remaining) × (remaining ≡ left ++ (r ∷ []))
        × IsCounted env wallet r w t)

pub take_last_counter_lem :
    (env : Environment) (wallet : Pubkey) (remaining : List Remaining) (w : Anchor)
    {taken : List Remaining × Anchor}
    → take_last_counter env wallet remaining w ≡ ok taken
    → IsFramed w taken.1 × Counts env wallet remaining taken.0 w taken.1
unfolding take_last_counter
take_last_counter_lem env wallet remaining w {taken} e = elim (Bool-cases env.request_bound_v1) [
  | inr off ↦
      let same : (remaining ≡ taken.0) × (w ≡ taken.1) = ground arith in
      (subst (IsFramed w) same.1 (IsFramed-refl w), inl (off, same.0, sym same.1))
  | inl on ↦ elim (Option-cases (split_last remaining)) [
    | inl n ↦ ground arith
    | inr (p, n) ↦ elim (Result-cases (advance_counter env wallet wallet p.0 w)) [
      | inr (x, q) ↦ ground arith
      | inl (a, q) ↦
          let l = advance_counter_lem env wallet p.0 w q in
          let same : (p.1 ≡ taken.0) × (a ≡ taken.1) = ground arith in
          (
            subst (IsFramed w) same.1 l.0,
            inr (
              on,
              p.0,
              split_last_lem remaining n ∙ ap (λ left. left ++ (p.0 ∷ [])) same.0,
              subst (IsCounted env wallet p.0 w) same.1 l.1,
            ),
          )
    ]
  ]
]
