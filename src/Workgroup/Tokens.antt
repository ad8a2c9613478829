-- ===== src/Workgroup/Tokens.antt =====
-- library/src/wg_state.cpp: a work-group takes the token of a buffer while it runs.
use native.Mathlib.Nat.{mod-lt}
use roc_shmem.Common.{
  ℕ, ◌+◌, ◌%◌, ◌<◌, ◌≡◌, ◌≢◌, sym, ap, ◌∙◌, subst, arith, inl, inr, update, update-cases,
  update_same, update_elsewhere,
}

-- Where a work-group stands in `reserve_wg_buffers`.
pub data Group : Type 0 where
  outside : Group
  probing : ℕ → Group
  holding : ℕ → Group

-- `bufferTokens`, and the work-groups.
pub record System : Type 0 where
  pub buffer_tokens : ℕ → ℕ
  pub groups : ℕ → Group

-- The steps of the work-groups; an `atomicCAS` is one step, and so is `return_buffers`.
pub data Step (num_buffers : ℕ) : System → System → Type 0 where
  starts :
      (s : System) (g hw_wv_slot : ℕ)
      → s.groups g ≡ outside
      → Step num_buffers s
          (record s { groups = update s.groups g (probing (hw_wv_slot % num_buffers)) })
  takes :
      (s : System) (g i : ℕ)
      → s.groups g ≡ probing i
      → s.buffer_tokens i ≡ 0
      → Step num_buffers s (record {
        buffer_tokens = update s.buffer_tokens i 1;
        groups = update s.groups g (holding i);
      })
  passes :
      (s : System) (g i : ℕ)
      → s.groups g ≡ probing i
      → s.buffer_tokens i ≡ 1
      → Step num_buffers s
          (record s { groups = update s.groups g (probing ((i + 1) % num_buffers)) })
  returns :
      (s : System) (g i : ℕ)
      → s.groups g ≡ holding i
      → Step num_buffers s (record {
        buffer_tokens = update s.buffer_tokens i 0;
        groups = update s.groups g outside;
      })

pub data Reach (num_buffers : ℕ) : System → Type 0 where
  begins :
      (s : System)
      → ((i : ℕ) → s.buffer_tokens i ≡ 0)
      → ((g : ℕ) → s.groups g ≡ outside)
      → Reach num_buffers s
  steps : (s s' : System) → Reach num_buffers s → Step num_buffers s s' → Reach num_buffers s'

-- The index at which a work-group works.
InRange : ℕ → Group → Type 0
InRange n outside = Unit
InRange n (probing i) = i < n
InRange n (holding i) = i < n

holding_injective : (i j : ℕ) → holding i ≡ holding j → i ≡ j
holding_injective i j e = ground (arith, e)

record Inv (n : ℕ) (s : System) : Type 0 where
  marked : (g i : ℕ) → s.groups g ≡ holding i → s.buffer_tokens i ≡ 1
  alone : (g h i : ℕ) → s.groups g ≡ holding i → s.groups h ≡ holding i → g ≡ h
  in_range : (g : ℕ) → InRange n (s.groups g)

module _ (n : ℕ) (some_buffer : 0 < n) (s : System) (inv : Inv n s) where
  -- A step to a group that holds nothing.
  move-Inv :
      (g : ℕ) (to : Group)
      → ((i : ℕ) → to ≢ holding i)
      → InRange n to
      → Inv n (record s { groups = update s.groups g to })
  unfolding InRange
  move-Inv g to free r = record {
    marked = λ h i e. elim (update-cases s.groups g to h) [
      | inl (p, k) ↦ absurd (free i (sym k ∙ e))
      | inr (d, k) ↦ inv.marked h i (sym k ∙ e)
    ];
    alone = λ h j i e f. elim (update-cases s.groups g to h) [
      | inl (p, k) ↦ absurd (free i (sym k ∙ e))
      | inr (d, k) ↦ elim (update-cases s.groups g to j) [
        | inl (q, l) ↦ absurd (free i (sym l ∙ f))
        | inr (m, l) ↦ inv.alone h j i (sym k ∙ e) (sym l ∙ f)
      ]
    ];
    in_range = λ h. elim (update-cases s.groups g to h) [
      | inl (p, k) ↦ subst (InRange n) (sym k) r
      | inr (d, k) ↦ subst (InRange n) (sym k) (inv.in_range h)
    ];
  }

  takes-Inv :
      (g i : ℕ)
      → s.groups g ≡ probing i
      → s.buffer_tokens i ≡ 0
      → Inv n (record {
        buffer_tokens = update s.buffer_tokens i 1;
        groups = update s.groups g (holding i);
      })
  unfolding InRange
  takes-Inv g i was clear =
      let other : (h j : ℕ) → s.groups h ≡ holding j → i ≢ j =
        λ h j e q. (let w = ap s.buffer_tokens q in omega (arith, w, clear, inv.marked h j e)) in
      record {
        marked = λ h j e. elim (update-cases s.groups g (holding i) h) [
          | inl (p, k) ↦
              (let q : i ≡ j = holding_injective i j (sym k ∙ e) in
                subst (λ j. update s.buffer_tokens i 1 j ≡ 1) q (update_same s.buffer_tokens i 1))
          | inr (d, k) ↦
              update_elsewhere s.buffer_tokens i j 1 (other h j (sym k ∙ e))
              ∙ inv.marked h j (sym k ∙ e)
        ];
        alone = λ h k j e f. elim (update-cases s.groups g (holding i) h) [
          | inl (p, a) ↦ elim (update-cases s.groups g (holding i) k) [
            | inl (q, b) ↦ sym p ∙ q
            | inr (m, b) ↦ absurd (other k j (sym b ∙ f) (holding_injective i j (sym a ∙ e)))
          ]
          | inr (d, a) ↦ elim (update-cases s.groups g (holding i) k) [
            | inl (q, b) ↦ absurd (other h j (sym a ∙ e) (holding_injective i j (sym b ∙ f)))
            | inr (m, b) ↦ inv.alone h k j (sym a ∙ e) (sym b ∙ f)
          ]
        ];
        in_range = λ h. elim (update-cases s.groups g (holding i) h) [
          | inl (p, k) ↦ subst (InRange n) (sym k) (subst (InRange n) was (inv.in_range g))
          | inr (d, k) ↦ subst (InRange n) (sym k) (inv.in_range h)
        ];
      }

  returns-Inv :
      (g i : ℕ)
      → s.groups g ≡ holding i
      → Inv n (record {
        buffer_tokens = update s.buffer_tokens i 0;
        groups = update s.groups g outside;
      })
  unfolding InRange
  returns-Inv g i was =
      let moved = move-Inv g outside (λ j e. ground (arith, e)) tt in
      record {
        marked = λ h j e. elim (update-cases s.groups g outside h) [
          | inl (p, k) ↦ absurd (let q = sym k ∙ e in ground (arith, q))
          | inr (d, k) ↦
              (let n : i ≢ j = λ q. d (inv.alone g h j (was ∙ ap holding q) (sym k ∙ e)) in
                update_elsewhere s.buffer_tokens i j 0 n ∙ inv.marked h j (sym k ∙ e))
        ];
        alone = moved.alone;
        in_range = moved.in_range;
      }

module _ (n : ℕ) (some_buffer : 0 < n) where
  Step-Inv : (s s' : System) → Step n s s' → Inv n s → Inv n s'
  unfolding InRange
  Step-Inv _ _ (starts s g slot was) inv =
      move-Inv n some_buffer s inv g _ (λ j e. ground (arith, e)) (mod-lt slot some_buffer)
  Step-Inv _ _ (takes s g i was clear) inv = takes-Inv n some_buffer s inv g i was clear
  Step-Inv _ _ (passes s g i was set) inv =
      move-Inv n some_buffer s inv g _ (λ j e. ground (arith, e)) (mod-lt (i + 1) some_buffer)
  Step-Inv _ _ (returns s g i was) inv = returns-Inv n some_buffer s inv g i was

  Reach-Inv : (s : System) → Reach n s → Inv n s
  unfolding InRange
  Reach-Inv _ (begins s clear out) = record {
    marked = λ g i e. absurd (let q = sym (out g) ∙ e in ground (arith, q));
    alone = λ g h i e f. absurd (let q = sym (out g) ∙ e in ground (arith, q));
    in_range = λ g. subst (InRange n) (sym (out g)) tt;
  }
  Reach-Inv _ (steps s s' r st) = Step-Inv s s' st (Reach-Inv s r)

  -- In every interleaving of work-groups on one buffer or more, a work-group that holds a buffer
  -- holds an existing one whose token is taken, and no other work-group holds it.
  pub Reach-holding :
      (s : System)
      → Reach n s
      → (g i : ℕ) → s.groups g ≡ holding i
      → (i < n) × (s.buffer_tokens i ≡ 1) × ((h : ℕ) → s.groups h ≡ holding i → g ≡ h)
  unfolding InRange
  Reach-holding s reached g i e =
      let inv = Reach-Inv s reached in
      (subst (InRange n) e (inv.in_range g), inv.marked g i e, λ h f. inv.alone g h i e f)
