-- ===== src/Client/Retries.antt =====
-- backend/app/core/llm/client.py: what generate_with_retries sends, and how it ends.
use codenames_llm_bias.Shared.{
  ℕ, zero, suc, ◌+◌, ◌≤◌, ◌*◌, ◌^◌, ◌≡◌, ap, ◌⊎◌, inl, inr, refl, true, false, not, ◌||◌,
  Bool-cases, Option, none, some, List, [], ◌∷◌, length, leb, if◌then◌else◌, arith,
}
use codenames_llm_bias.Client.{
  LlmError, retriable, is_bad_draw, BadDraws, no_draws, count_draw, total, Attempt, answered,
  failed, crashed, Reply, returned, raised, propagated, Call, backoff_base, redraw_seed, sends,
  retry_loop, generate_with_retries,
}

count_draw_total :
    (e : LlmError) (d : BadDraws) → is_bad_draw e ≡ true → total (count_draw e d) ≡ total d + 1
unfolding count_draw is_bad_draw
count_draw_total e d h = ground (arith, h)

abbrev pub last_sent : List (Option ℕ) → Option (Option ℕ)
last_sent [] = none
last_sent (s ∷ ss) = some s

-- The seed after `k` bad draws.
abbrev pub seed_at : (ℕ → ℕ → ℕ) → Option ℕ → ℕ → Option ℕ
seed_at hash seed zero = seed
seed_at hash seed (suc k) = redraw_seed hash seed (suc k)

seed_at_draws :
    (hash : ℕ → ℕ → ℕ) (seed : Option ℕ) (k m : ℕ)
    → k ≡ m + 1
    → redraw_seed hash seed k ≡ seed_at hash seed k
seed_at_draws hash seed zero m h = absurd (omega (arith, h))
seed_at_draws hash seed (suc k) m h = refl

module _ {W R : Type 0} (attempt : W → Option ℕ → Attempt R × W) (hash : ℕ → ℕ → ℕ)
    (seed : Option ℕ) (max_retries : ℕ) where
  -- How a call may end, within the budget.
  abbrev pub Ended : Option (Reply R × Call W) → Type 0
  Ended none = ⊥
  Ended (some (returned r d, c)) =
      (total d + length c.slept + 1 ≡ length c.sent)
      × (length c.sent ≤ max_retries + 1)
      × (last_sent c.sent ≡ some (seed_at hash seed (total d)))
  Ended (some (raised e, c)) =
      (length c.sent ≤ max_retries + 1)
      × ((retriable e ≡ false) ⊎ (length c.sent ≡ max_retries + 1))
  Ended (some (propagated, c)) = length c.sent ≤ max_retries + 1

  -- One round: the answer ends the call, or the rest of the loop does.
  step :
      (fuel n : ℕ) (draws : BadDraws) (current : Option ℕ) (c : Call W) (w : W) (a : Attempt R)
      → n + suc fuel ≡ max_retries + 1
      → n ≤ max_retries
      → length c.sent ≡ n
      → total draws + length c.slept ≡ n
      → current ≡ seed_at hash seed (total draws)
      → let c' = sends attempt hash seed max_retries current w c in
        let redraw = λ (e : LlmError).
          let counted = count_draw e draws in
          retry_loop attempt hash seed max_retries fuel
            (n + 1)
            counted
            (redraw_seed hash seed (total counted))
            c' in
        let again =
          retry_loop attempt hash seed max_retries fuel
            (n + 1)
            draws
            current
            (record c' { slept = (backoff_base * 2 ^ n) ∷ c.slept }) in
        ((e : LlmError) → is_bad_draw e ≡ true → n + 1 ≤ max_retries → Ended (redraw e))
        → (n + 1 ≤ max_retries → Ended again)
        → Ended (elim a [
          | answered r ↦ some (returned r draws, c')
          | crashed ↦ some (propagated, c')
          | failed e ↦
              if not (retriable e) || leb max_retries n
              then some (raised e, c')
              else if is_bad_draw e
              then redraw e
              else again
        ])
  step fuel n draws current c w (answered r) f b l k s hr ha =
      (omega (arith, l, k), omega (arith, l, b), ap some s)
  step fuel n draws current c w crashed f b l k s hr ha = omega (arith, l, b)
  step fuel n draws current c w (failed e) f b l k s hr ha =
      elim (Bool-cases (not (retriable e) || leb max_retries n)) [
        | inl stop ↦ rw stop (omega (arith, l, b), ground (arith, stop, l, b))
        | inr go ↦ rw go (elim (Bool-cases (is_bad_draw e)) [
          | inl bad ↦ rw bad (hr e bad (ground (arith, go, b)))
          | inr not_bad ↦ rw not_bad (ha (ground (arith, go, b)))
        ])
      ]

  retry_loop-Ended :
      (fuel n : ℕ) (draws : BadDraws) (current : Option ℕ) (c : Call W)
      → n + fuel ≡ max_retries + 1
      → n ≤ max_retries
      → length c.sent ≡ n
      → total draws + length c.slept ≡ n
      → current ≡ seed_at hash seed (total draws)
      → Ended (retry_loop attempt hash seed max_retries fuel n draws current c)
  unfolding retry_loop
  retry_loop-Ended zero n draws current c f b l k s = absurd (omega (arith, f, b))
  retry_loop-Ended (suc fuel) n draws current c f b l k s =
      let w = (attempt c.world current).1 in
      let c' = sends attempt hash seed max_retries current w c in
      step fuel n draws current c w (attempt c.world current).0 f b l k s
        (λ e bad more.
          let counted = count_draw_total e draws bad in
          retry_loop-Ended fuel (n + 1) (count_draw e draws)
            (redraw_seed hash seed (total (count_draw e draws))) c' (omega (arith, f)) more
            (omega (arith, l)) (omega (arith, k, counted))
            (seed_at_draws hash seed (total (count_draw e draws)) (total draws) counted))
        (λ more.
          retry_loop-Ended fuel (n + 1) draws current
            (record c' { slept = (backoff_base * 2 ^ n) ∷ c.slept }) (omega (arith, f)) more
            (omega (arith, l)) (omega (arith, k)) s)

  -- A call ends within its budget, and it never runs out of rounds. The response that is kept was
  -- drawn with the request's own seed, or with the one of the last new draw, and each request but
  -- the last is a counted bad draw or a wait. An error that is raised is not retriable, or all the
  -- requests of the budget were sent.
  pub generate_with_retries-Ended :
      (w : W) → Ended (generate_with_retries attempt hash seed max_retries w)
  unfolding generate_with_retries
  generate_with_retries-Ended w =
      retry_loop-Ended (max_retries + 1) 0 no_draws seed _ (omega arith) (omega arith) refl refl
        refl
