-- ===== src/Codegen/Machine/Sides.antt =====
-- The sides of an operator of gen2-dcc-rs/src/codegen.rs on the machine.
use dacelo.Base.{
  ℕ, ◌+◌, ◌-◌, ◌*◌, ◌%◌, ◌^◌, ◌≤◌, ◌<◌, ◌≡◌, refl, sym, ap, ◌∙◌, arith, List, [], ◌∷◌, Option, none,
  some, true, false, ◌==◌,
}
use dacelo.Base.Int.{ℤ, as_unsigned}
use dacelo.Base.Text.{Text}
use dacelo.Codegen.{Codegen, FnState, Method, ◌>>=◌, ◌>>◌, emit, x0, tagged_int}
use dacelo.Codegen.Arith.{add_ints, sub_ints, mul_ints}
use dacelo.Codegen.Frames.{find_last}
use dacelo.Codegen.Machine.{Machine, update, run, exec}
use dacelo.Codegen.Machine.Ints.{tagged, IsSmall, add_ints-run, sub_ints-run, mul_ints-run}
use dacelo.Codegen.Machine.Steps.{Spilled, Goes, follow, weaker, emit-Goes, spill-Goes}
use dacelo.Codegen.Patterns.{spill}
use dacelo.Encoder.Program.{Op}
use dacelo.Syntax.{BinOp, Lit, Expr, lit, bin, seq, ann, TyAst}
use mathlib.Core.Option.{some-injective}

-- The words of arithmetic expressions, where `w` has the words of the locals by their slots. Sums,
-- differences and products are modulo 2^64, and the factors of a product are integers of 62 bits.
pub data Denotes (scope : List (Text × ℕ)) (w : ℕ → ℕ) : Expr → ℕ → Type 0 where
  num : (z : ℤ) → Denotes scope w (lit (Lit.int z)) (as_unsigned 64 z)
  local : {n : Text} {s : ℕ} → find_last none n scope ≡ some s → Denotes scope w (Expr.var n) (w s)
  sum :
      {l r : Expr} {a b : ℕ}
      → Denotes scope w l a
      → Denotes scope w r b
      → Denotes scope w (bin BinOp.add l r) ((a + b) % 2 ^ 64)
  difference :
      {l r : Expr} {a b : ℕ}
      → Denotes scope w l a
      → Denotes scope w r b
      → Denotes scope w (bin BinOp.sub l r) ((a + 2 ^ 64 - b % 2 ^ 64) % 2 ^ 64)
  product :
      {l r : Expr} {a b : ℕ}
      → Denotes scope w l a
      → Denotes scope w r b
      → a < 2 ^ 64
      → b < 2 ^ 64
      → IsSmall a
      → IsSmall b
      → Denotes scope w (bin BinOp.mul l r) (a * b % 2 ^ 64)
  second :
      {l r : Expr} {a b : ℕ}
      → Denotes scope w l a
      → Denotes scope w r b
      → Denotes scope w (seq l r) b
  annotated : {e : Expr} {t : TyAst} {a : ℕ} → Denotes scope w e a → Denotes scope w (ann e t) a

-- The locals are in slots below `n` that hold their tagged words.
abbrev pub Known : List (Text × ℕ) → (ℕ → ℕ) → ℕ → Machine → Type 0
Known scope w n m =
    (name : Text) (s : ℕ)
    → find_last none name scope ≡ some s
    → (s < n) × (m.slots s ≡ tagged (w s))

-- The tagged word `v` is in x0, the scope is the same, and so are the slots that were in use.
pub record Leaves (g : Codegen) (m : Machine) (v : ℕ) (h : Codegen) (k : Machine) : Type 0 where
  pub in_x0 : k.regs x0 ≡ tagged v
  pub same_scope : h.frame.scope ≡ g.frame.scope
  pub slots_le : g.frame.nslots ≤ h.frame.nslots
  pub slots_kept : (s : ℕ) → s < g.frame.nslots → k.slots s ≡ m.slots s

-- The end of a run that changes registers alone.
pub record Finishes (m : Machine) (v : ℕ) (o : Option Machine) : Type 0 where
  last_machine : Machine
  ends : o ≡ some last_machine
  pub in_x0 : last_machine.regs x0 ≡ tagged v
  same_slots : last_machine.slots ≡ m.slots

pub add_ints-Finishes :
    (m : Machine) (la rb a b : ℕ)
    → m.slots la ≡ tagged a
    → m.slots rb ≡ tagged b
    → Finishes m ((a + b) % 2 ^ 64) (run (add_ints la rb) m)
unfolding run exec add_ints
add_ints-Finishes m la rb a b p q = record {
  last_machine = _;
  ends = refl;
  in_x0 = some-injective _ _ (add_ints-run m la rb a b p q) ∙ omega arith;
  same_slots = refl;
}

pub sub_ints-Finishes :
    (m : Machine) (la rb a b : ℕ)
    → m.slots la ≡ tagged a
    → m.slots rb ≡ tagged b
    → Finishes m ((a + 2 ^ 64 - b % 2 ^ 64) % 2 ^ 64) (run (sub_ints la rb) m)
unfolding run exec sub_ints
sub_ints-Finishes m la rb a b p q =
    let c = (a + 2 ^ 64 - b % 2 ^ 64) % 2 ^ 64 in
    let e : tagged a ≡ tagged (c + b) = omega arith in
    record {
      last_machine = _;
      ends = refl;
      in_x0 = some-injective _ _ (sub_ints-run m la rb c b (p ∙ e) q);
      same_slots = refl;
    }

pub mul_ints-Finishes :
    (m : Machine) (la rb a b : ℕ)
    → a < 2 ^ 64
    → b < 2 ^ 64
    → IsSmall a
    → IsSmall b
    → m.slots la ≡ tagged a
    → m.slots rb ≡ tagged b
    → Finishes m (a * b % 2 ^ 64) (run (mul_ints la rb) m)
unfolding run exec mul_ints
mul_ints-Finishes m la rb a b ha hb sa sb p q = record {
  last_machine = _;
  ends = refl;
  in_x0 = some-injective _ _ (mul_ints-run m la rb a b ha hb sa sb p q) ∙ omega arith;
  same_slots = refl;
}

update_same : (f : ℕ → ℕ) (i v : ℕ) → update f i v i ≡ v
update_same f i v = let e : (i == i) ≡ true = ground arith in rw e refl

update_below : (f : ℕ → ℕ) (i v j : ℕ) → j < i → update f i v j ≡ f j
update_below f i v j l = let e : (i == j) ≡ false = ground arith in rw e refl

-- Spilling keeps the slots in use and puts x0 in the new one.
Spilled-kept :
    {g h : Codegen} {m k : Machine} {s : ℕ} (j : ℕ)
    → Spilled g m s h k
    → j < g.frame.nslots
    → k.slots j ≡ m.slots j
Spilled-kept {m} {s} j x l =
    ap (λ (n : Machine). n.slots j) x.is_machine
    ∙ update_below m.slots s (m.regs x0) j (omega (arith, x.is_slot))

Spilled-new : {g h : Codegen} {m k : Machine} {s : ℕ} → Spilled g m s h k → k.slots s ≡ m.regs x0
Spilled-new {m} {s} x =
    ap (λ (n : Machine). n.slots s) x.is_machine ∙ update_same m.slots s (m.regs x0)

pub Known-kept :
    (scope : List (Text × ℕ)) (w : ℕ → ℕ) {n n' : ℕ} (m k : Machine)
    → Known scope w n m
    → n ≤ n'
    → ((s : ℕ) → s < n → k.slots s ≡ m.slots s)
    → Known scope w n' k
Known-kept scope w m k known l same name s e =
    let (below, is) = known name s e in (omega arith, same s below ∙ is)

-- Code in which both sides of an operator leave their words, the first one in a slot, and the code
-- behind them leaves `v`.
pub both-Leaves :
    (scope : List (Text × ℕ)) (w : ℕ → ℕ) (l r : Method (Unit {0})) (ops : ℕ → ℕ → List Op)
    (a b v : ℕ) {g : Codegen} {m : Machine}
    → g.frame.scope ≡ scope
    → Known scope w g.frame.nslots m
    → ((h : Codegen) (k : Machine)
        → h.frame.scope ≡ scope
        → Known scope w h.frame.nslots k
        → Goes h k (λ _. Leaves h k a) l)
    → ((h : Codegen) (k : Machine)
        → h.frame.scope ≡ scope
        → Known scope w h.frame.nslots k
        → Goes h k (λ _. Leaves h k b) r)
    → ((la rb : ℕ) (k : Machine)
        → k.slots la ≡ tagged a
        → k.slots rb ≡ tagged b
        → Finishes k v (run (ops la rb) k))
    → Goes g m
        (λ _. Leaves g m v)
        (l >> (spill x0 >>= λ la. r >> (spill x0 >>= λ rb. emit (ops la rb))))
both-Leaves scope w l r ops a b v {g} {m} same known left right fin =
    follow (left g m same known) λ _ h₁ k₁ x₁. follow spill-Goes λ la h₂ k₂ x₂.
      let same₂ = x₂.same_scope ∙ x₁.same_scope ∙ same in
      let kept₂ : (s : ℕ) → s < g.frame.nslots → k₂.slots s ≡ m.slots s =
        λ s below. Spilled-kept s x₂ (omega (arith, x₁.slots_le)) ∙ x₁.slots_kept s below in
      follow
        (right h₂ k₂ same₂
          (Known-kept scope w m k₂ known (omega (arith, x₁.slots_le, x₂.one_more)) kept₂))
        λ _ h₃ k₃ x₃. follow spill-Goes λ rb h₄ k₄ x₄.
          let kept₄ : (s : ℕ) → s < h₂.frame.nslots → k₄.slots s ≡ k₂.slots s =
            λ s below. Spilled-kept s x₄ (omega (arith, x₃.slots_le)) ∙ x₃.slots_kept s below in
          let first : k₄.slots la ≡ tagged a =
            kept₄ la (omega (arith, x₂.is_slot, x₂.one_more)) ∙ Spilled-new x₂ ∙ x₁.in_x0 in
          let end = fin la rb k₄ first (Spilled-new x₄ ∙ x₃.in_x0) in
          weaker (emit-Goes (ops la rb) end.ends) λ _ h k only. record {
            in_x0 = ap (λ (n : Machine). n.regs x0) only.is_machine ∙ end.in_x0;
            same_scope =
                ap (λ (f : FnState). f.scope) only.same_frame
                ∙ x₄.same_scope
                ∙ x₃.same_scope
                ∙ same₂
                ∙ sym same;
            slots_le = omega (
              arith,
              ap (λ (f : FnState). f.nslots) only.same_frame,
              x₁.slots_le,
              x₂.one_more,
              x₃.slots_le,
              x₄.one_more,
            );
            slots_kept = λ s below.
                ap (λ (n : Machine). n.slots s) only.is_machine
                ∙ ap (λ (f : ℕ → ℕ). f s) end.same_slots
                ∙ kept₄ s (omega (arith, x₁.slots_le, x₂.one_more))
                ∙ kept₂ s below;
          }

pub literal_run :
    (z : ℤ) (m : Machine)
    → run (Op.load_const_i64 x0 (tagged_int z) ∷ []) m
      ≡ some (record m { regs = update m.regs x0 (as_unsigned 64 (tagged_int z)) })
unfolding run exec
literal_run z m = refl

pub local_run :
    (s : ℕ) (m : Machine)
    → run (Op.ldr_slot x0 s ∷ []) m ≡ some (record m { regs = update m.regs x0 (m.slots s) })
unfolding run exec
local_run s m = refl

-- Calls that put a tagged word into x0 and change nothing else.
pub into_x0 :
    (ops : List Op) (v word : ℕ) {g : Codegen} {m : Machine}
    → run ops m ≡ some (record m { regs = update m.regs x0 word })
    → word ≡ tagged v
    → Goes g m (λ _. Leaves g m v) (emit ops)
into_x0 ops v word {g} {m} e is = weaker (emit-Goes ops e) λ _ h k only. record {
  in_x0 = ap (λ (n : Machine). n.regs x0) only.is_machine ∙ is;
  same_scope = ap (λ (f : FnState). f.scope) only.same_frame;
  slots_le = omega (arith, ap (λ (f : FnState). f.nslots) only.same_frame);
  slots_kept = λ s below. ap (λ (n : Machine). n.slots s) only.is_machine;
}
