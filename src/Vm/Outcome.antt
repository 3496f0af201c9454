-- ===== src/Vm/Outcome.antt =====
-- The interpreter's actions: a function of the machine's state that gives a value and a new state,
-- ends in undefined behaviour of the source (`fault`), or runs out of fuel.

pub data Outcome (S A : Type 0) : Type 0 where
  done : A → S → Outcome S A
  fault : Outcome S A
  no_fuel : Outcome S A

abbrev pub Action : Type 0 → Type 0 → Type 0
Action S A = S → Outcome S A

module _ {S A : Type 0} where
  abbrev pub pure : A → Action S A
  pure a s = done a s

  abbrev pub faulted : Action S A
  faulted s = fault

  abbrev pub exhausted : Action S A
  exhausted s = no_fuel

  abbrev pub gets : (S → A) → Action S A
  gets f s = done (f s) s

module _ {S : Type 0} where
  abbrev pub modify : (S → S) → Action S (Unit {0})
  modify f s = done tt (f s)

  abbrev pub skip : Action S (Unit {0})
  skip s = done tt s

module _ {S A B : Type 0} where
  abbrev pub after : Outcome S A → (A → Action S B) → Outcome S B
  after (done a s) f = f a s
  after fault f = fault
  after no_fuel f = no_fuel

  infixl 5 ◌>>=◌ ◌>>◌
  abbrev pub ◌>>=◌ : Action S A → (A → Action S B) → Action S B
  ◌>>=◌ m f s = after (m s) f

  abbrev pub ◌>>◌ : Action S A → Action S B → Action S B
  m >> k = m >>= λ _. k
