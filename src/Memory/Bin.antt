-- ===== src/Memory/Bin.antt =====
-- library/src/memory/bin.hpp: a stack of elements.
use roc_shmem.Common.{ℕ, Bool, true, false, List, [], ◌∷◌, Option, none, some, length}

-- The head of the list is the top of `stack_`.
abbrev pub Bin {ℓ} : Type ℓ → Type ℓ
Bin A = List A

module _ {ℓ} {A : Type ℓ} where
  unfoldable pub empty : Bin A → Bool
  empty [] = true
  empty (x ∷ xs) = false

  unfoldable pub size : Bin A → ℕ
  size bin = length bin

  unfoldable pub put : A → Bin A → Bin A
  put element bin = element ∷ bin

  -- The element with the stack that is left; the assertion fails on an empty stack.
  unfoldable pub get : Bin A → Option (A × Bin A)
  get [] = none
  get (top ∷ rest) = some (top, rest)
