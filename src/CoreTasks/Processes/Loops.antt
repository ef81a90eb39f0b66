-- ===== src/CoreTasks/Processes/Loops.antt =====
-- The loops of src/core_tasks.rs around `recv`, whose own loops are those of src/network.rs.
use failover.Base.{
  ℕ, zero, suc, ◌≡◌, refl, ap, ◌≤◌, List, [], ◌∷◌, Option, none, some, arith, length, Option-cases,
  inl, inr,
}
use failover.Error.{Result, Source}
use failover.Network.Listeners.{wait}

module _ {ℓ κ} {T : Type ℓ} {A : Type κ} (body : T → Option (Result Source A)) where
  -- `loop { let … = listener.recv().await … }`: what the rounds get, on fuel.
  pub loop : (fuel : ℕ) → List T → List (Result Source A)
  loop zero turns = []
  loop (suc fuel) turns = elim (wait body turns) [
    | none ↦ []
    | some (result, rest) ↦ result ∷ loop fuel rest
  ]

  -- The turns on which the body of `recv` returns, in order.
  abbrev pub returns : List T → List (Result Source A)
  returns [] = []
  returns (turn ∷ turns) =
      let rest = returns turns in elim (body turn) [ none ↦ rest | some result ↦ result ∷ rest ]

  -- With a unit of fuel for each turn of its socket, the loop of a task around the loop of its
  -- listener goes through all the turns: the task gets just what the turns bring, one by one and
  -- in order.
  pub loop-returns :
      (fuel : ℕ) (turns : List T) → length turns ≤ fuel → loop fuel turns ≡ returns turns
  unfolding loop wait
  loop-returns zero [] enough = refl
  loop-returns (suc fuel) [] enough = refl
  loop-returns zero (turn ∷ turns) enough = absurd (omega arith)
  loop-returns (suc fuel) (turn ∷ turns) enough = elim (Option-cases (body turn)) [
    | inl passed ↦ rw (loop, wait, returns, passed) (loop-returns (suc fuel) turns (omega arith))
    | inr (result, here) ↦
        rw (loop, wait, returns, here) (ap (◌∷◌ result) (loop-returns fuel turns (omega arith)))
  ]
