-- ===== src/Platform/Bpf.antt =====
-- Runs of a socket filter program in the kernel. The kernel's machine is a parameter: a function
-- that does one instruction, of which only what the instruction set documents is assumed.
use sfo_reuseport.Prelude.{
  ℕ, zero, suc, ◌≡◌, List, Option, none, some, get_elem?, arith, Option-cases, inl, inr,
}

-- What an instruction does: go on in a new state, or end the program with a value.
pub data Outcome (S : Type 0) : Type 0 where
  next : S → Outcome S
  return : ℕ → Outcome S

module _ {I S : Type 0} where
  -- The machine does what the documentation says, wherever that says something. `none` means that
  -- the instruction is refused in that state.
  abbrev pub Implements : (I → S → Option (Outcome S)) → (I → S → Option (Outcome S)) → Type 0
  Implements isa step = (i : I) (s : S) (o : Outcome S) → isa i s ≡ some o → step i s ≡ some o

module _ {I S : Type 0} (pc : S → ℕ) where
  -- At most `fuel` instructions of a program; `none` also where the fuel runs out.
  unfoldable pub run : (I → S → Option (Outcome S)) → List I → ℕ → S → Option ℕ
  run step program zero s = none
  run step program (suc fuel) s = elim (get_elem? program (pc s)) [
    | none ↦ none
    | some i ↦ elim (step i s) [
      | none ↦ none
      | some (return v) ↦ some v
      | some (next t) ↦ run step program fuel t
    ]
  ]

  -- A result that follows from the documentation is the machine's result.
  pub run-Implements :
      (isa step : I → S → Option (Outcome S)) (program : List I)
      → Implements isa step
      → (fuel : ℕ) (s : S) (v : ℕ) → run isa program fuel s ≡ some v
      → run step program fuel s ≡ some v
  unfolding run
  run-Implements isa step program law zero s v h = absurd (ground arith)
  run-Implements isa step program law (suc fuel) s v h =
      elim (Option-cases (get_elem? program (pc s))) [
        | inl none_there ↦ absurd (ground arith)
        | inr (i, there) ↦ elim (Option-cases (isa i s)) [
          | inl stuck ↦ absurd (ground arith)
          | inr (return u, done) ↦ ground (arith, law i s (return u) done)
          | inr (next t, done) ↦
              ground (arith, law i s (next t) done, run-Implements isa step program law fuel t v)
        ]
      ]

  -- One instruction of a run.
  pub run-next :
      (step : I → S → Option (Outcome S)) (program : List I) (fuel : ℕ) (s t : S) (i : I)
      → get_elem? program (pc s) ≡ some i
      → step i s ≡ some (next t)
      → run step program (suc fuel) s ≡ run step program fuel t
  unfolding run
  run-next step program fuel s t i there done = ground arith

  pub run-return :
      (step : I → S → Option (Outcome S)) (program : List I) (fuel : ℕ) (s : S) (i : I) (v : ℕ)
      → get_elem? program (pc s) ≡ some i
      → step i s ≡ some (return v)
      → run step program (suc fuel) s ≡ some v
  unfolding run
  run-return step program fuel s i v there done = ground arith
