-- ===== src/Codegen/Machine/Closures.antt =====
-- What a closure of gen2-dcc-rs/src/codegen.rs captures, on the machine: the words that
-- `make_closure` stores and that the prologue of the closure's code loads.
use dacelo.Base.{
  ℕ, zero, suc, ◌+◌, ◌*◌, ◌≤◌, ◌<◌, ◌≡◌, refl, sym, ap, ◌∙◌, arith, inl, inr, true, false, List, [],
  ◌∷◌, Option, none, some, if◌then◌else◌, length, get_elem?, ◌==◌, Bool-cases,
}
use mathlib.Core.Option.{some-injective}
use dacelo.Base.Text.{Text, text_eq}
use dacelo.Codegen.{FnState, Codegen, ok, emit, ◌>>=◌, continue, x0}
use dacelo.Codegen.Exprs.{scope_names}
use dacelo.Codegen.Frames.{
  store_captured, load_env_word, load_env, find_last, scope_find, set_frame, open_frame,
  fn_prologue,
}
use dacelo.Codegen.Functions.{numbered, enter_level}
use dacelo.Codegen.Machine.{Machine, update, exec, run}
use dacelo.Codegen.Machine.Steps.{Went, Goes, goes, of_goes, follow, emit-Goes, stays}
use dacelo.Encoder.{r9}

-- The memory after the captured words from number `j` on are stored behind the address `at`.
abbrev pub stored : ℕ → (ℕ → ℕ) → ℕ → List (Text × ℕ) → (ℕ → ℕ) → ℕ → ℕ
stored at slots j [] memory = memory
stored at slots j ((nm, src) ∷ captured) memory =
    stored at slots (suc j) captured (λ a. if at + (24 + 8 * j) == a then slots src else memory a)

-- A run that ends in a machine with this memory and with the same address in x0.
pub record Stores (m : Machine) (memory : ℕ → ℕ) (o : Option Machine) : Type 0 where
  pub last_machine : Machine
  pub ends : o ≡ some last_machine
  pub has_memory : last_machine.memory ≡ memory
  pub same_object : last_machine.regs x0 ≡ m.regs x0

store_captured-Stores :
    (j : ℕ) (captured : List (Text × ℕ)) (m : Machine)
    → Stores m (stored (m.regs x0) m.slots j captured m.memory) (run (store_captured j captured) m)
unfolding store_captured run exec
store_captured-Stores j [] m = record {
  last_machine = m;
  ends = refl;
  has_memory = refl;
  same_object = refl;
}
store_captured-Stores j ((nm, src) ∷ captured) m =
    let next : Machine = record {
      regs = update m.regs r9 (m.slots src);
      slots = m.slots;
      memory = update m.memory (m.regs x0 + (24 + 8 * j)) (m.slots src);
      compared = m.compared;
    } in
    let rest = store_captured-Stores (suc j) captured next in
    record {
      last_machine = rest.last_machine;
      ends = rest.ends;
      has_memory = rest.has_memory;
      same_object = rest.same_object;
    }

-- What is stored behind an address leaves it.
stored-before :
    (at : ℕ) (slots : ℕ → ℕ) (j : ℕ) (captured : List (Text × ℕ)) (memory : ℕ → ℕ) (a : ℕ)
    → a < at + (24 + 8 * j)
    → stored at slots j captured memory a ≡ memory a
stored-before at slots j [] memory a l = refl
stored-before at slots j ((nm, src) ∷ captured) memory a l =
    let other : (at + (24 + 8 * j) == a) ≡ false = ground arith in
    stored-before at slots (suc j) captured _ a (omega arith) ∙ rw other refl

-- Every captured word is where its number says.
stored-at :
    (at : ℕ) (slots : ℕ → ℕ) (j i : ℕ) (captured : List (Text × ℕ)) (memory : ℕ → ℕ)
    {entry : Text × ℕ}
    → get_elem? captured i ≡ some entry
    → stored at slots j captured memory (at + (24 + 8 * (j + i))) ≡ slots entry.1
stored-at at slots j i [] memory e = absurd cc
stored-at at slots j zero ((nm, src) ∷ captured) memory {entry} e =
    let here : (at + (24 + 8 * j) == at + (24 + 8 * (j + zero))) ≡ true = ground arith in
    let same : src ≡ entry.1 = ap (λ (t : Text × ℕ). t.1) (some-injective _ _ e) in
    stored-before at slots (suc j) captured _ _ (omega arith) ∙ rw here (ap slots same)
stored-at at slots j (suc i) ((nm, src) ∷ captured) memory {entry} e =
    let shift : j + suc i ≡ suc j + i = omega arith in
    rw shift (stored-at at slots (suc j) i captured _ e)

-- A run that loads words `i` to `i + n - 1` of the object in x0 into the slots of their numbers.
pub record Loads (m : Machine) (i n : ℕ) (o : Option Machine) : Type 0 where
  pub last_machine : Machine
  pub ends : o ≡ some last_machine
  pub loaded :
      (k : ℕ) → i ≤ k → k < i + n → last_machine.slots k ≡ m.memory (m.regs x0 + (24 + 8 * k))
  pub others : (k : ℕ) → k < i → last_machine.slots k ≡ m.slots k

load_env-Loads : (i n : ℕ) (m : Machine) → Loads m i n (run (load_env i n) m)
unfolding load_env load_env_word run exec
load_env-Loads i zero m = record {
  last_machine = m;
  ends = refl;
  loaded = λ k l h. absurd (omega arith);
  others = λ k h. refl;
}
load_env-Loads i (suc n) m =
    let word = m.memory (m.regs x0 + (24 + 8 * i)) in
    let next : Machine = record {
      regs = update m.regs r9 word;
      slots = update m.slots i word;
      memory = m.memory;
      compared = m.compared;
    } in
    let rest = load_env-Loads (suc i) n next in
    record {
      last_machine = rest.last_machine;
      ends = rest.ends;
      loaded = λ k l h. elim (Bool-cases (i == k)) [
        | inl same ↦
            let is : i ≡ k = ground arith in
            rest.others k (omega arith)
            ∙ rw same (ap (λ (t : ℕ). m.memory (m.regs x0 + (24 + 8 * t))) is)
        | inr other ↦ rest.loaded k (ground arith) (omega arith)
      ];
      others = λ k h.
          let other : (i == k) ≡ false = ground arith in
          rest.others k (omega arith) ∙ rw other refl;
    }

-- Two slots, or none, whose words in two frames are the same.
pub data SameWord (v w : ℕ → ℕ) : Option ℕ → Option ℕ → Type 0 where
  neither : SameWord v w none none
  both : {s t : ℕ} → v s ≡ w t → SameWord v w (some s) (some t)

-- A name found among captured variables and among the same names numbered from `k` on.
find_last-numbered :
    (v w : ℕ → ℕ) (name : Text) (k : ℕ) (captured : List (Text × ℕ)) {p q : Option ℕ}
    → SameWord v w p q
    → ((i : ℕ) (entry : Text × ℕ) → get_elem? captured i ≡ some entry → v entry.1 ≡ w (k + i))
    → SameWord v w
        (find_last p name captured)
        (find_last q name (numbered k (scope_names captured)))
unfolding find_last numbered scope_names
find_last-numbered v w name k [] r h = r
find_last-numbered v w name k ((nm, src) ∷ captured) {p} {q} r h =
    find_last-numbered v w name (suc k) captured newer later
  where
    here : v src ≡ w k
    here = h 0 (nm, src) refl ∙ ap w (omega arith)

    newer :
        SameWord v w
          (if text_eq nm name then some src else p)
          (if text_eq nm name then some k else q)
    newer = elim (Bool-cases (text_eq nm name)) [ inl e ↦ rw e (both here) | inr e ↦ rw e r ]

    later :
        (i : ℕ) (entry : Text × ℕ) → get_elem? captured i ≡ some entry → v entry.1 ≡ w (suc k + i)
    later i entry e = h (suc i) entry e ∙ ap w (omega arith)

get_elem?-lt :
    (xs : List (Text × ℕ)) (i : ℕ) {x : Text × ℕ}
    → get_elem? xs i ≡ some x
    → i < length (scope_names xs)
unfolding scope_names
get_elem?-lt [] i e = absurd cc
get_elem?-lt (y ∷ xs) zero e = omega arith
get_elem?-lt (y ∷ xs) (suc i) e = omega (arith, get_elem?-lt xs i e)

-- `name` is in scope in both frames or in neither, and its slots hold the same word.
abbrev pub Carried : FnState → Machine → Text → FnState → Machine → Type 0
Carried f m name f' callee = SameWord m.slots callee.slots (scope_find f name) (scope_find f' name)

-- The last part of `enter_level`, with the frame open.
module _ (caps : List Text) (entry : Machine) (Q : Codegen → Machine → Type 0)
    (q : (h : Codegen)
      → h.frame ≡ record { nslots = length caps; scope = numbered 0 caps }
      → Q h (load_env-Loads 0 (length caps) entry).last_machine) where
  framed :
      (h : Codegen) (k : Machine)
      → k ≡ (load_env-Loads 0 (length caps) entry).last_machine
      → Goes h k
          (λ (_ : Unit {0}). Q)
          (set_frame (record { nslots = length caps; scope = numbered 0 caps }))
  unfolding set_frame
  framed h k is =
      goes {μ = set_frame (record { nslots = length caps; scope = numbered 0 caps })}
        (stays tt refl (rw is (q _ refl)))

  loads-Went :
      (g : Codegen)
      → Went g entry
          (λ (_ : Unit {0}). Q)
          ((emit (load_env 0 (length caps)) >>= λ _.
              set_frame (record { nslots = length caps; scope = numbered 0 caps }))
            g)
  loads-Went g = of_goes (
      follow (emit-Goes (load_env 0 (length caps)) (load_env-Loads 0 (length caps) entry).ends)
        λ _ h k only. framed h k only.is_machine)

  enter_level-Went :
      (g g₀ : Codegen)
      → open_frame g ≡ ok (tt, g₀)
      → Went g₀ entry (λ (_ : Unit {0}). Q) (enter_level caps g)
  unfolding enter_level fn_prologue ◌>>=◌ continue
  enter_level-Went g g₀ e = rw e (loads-Went g₀)

-- A closure is filled with the variables of the frame `f`, and its code, whose first level captures
-- the names of these variables, has opened its frame, with the closure in x0 and its words
-- unchanged, whatever else the registers and the frame hold. Then the rest of `enter_level` panics, or the calls of the encoder
-- that it makes run, and behind them every name is in scope in the closure's frame exactly if it
-- was in scope in `f`; the slot that is found for it there holds the word of the slot that was found in `f`.
pub enter_level-store_captured :
    (f : FnState) (m closure entry : Machine) (name : Text) (g g₀ : Codegen)
    → run (store_captured 0 f.scope) m ≡ some closure
    → entry.memory ≡ closure.memory
    → entry.regs x0 ≡ closure.regs x0
    → open_frame g ≡ ok (tt, g₀)
    → Went g₀ entry
        (λ _ h callee. Carried f m name h.frame callee)
        (enter_level (scope_names f.scope) g)
unfolding scope_find
enter_level-store_captured f m closure entry name g g₀ e same_memory same_object opens =
    let caps = scope_names f.scope in
    let filled = store_captured-Stores 0 f.scope m in
    let opened = load_env-Loads 0 (length caps) entry in
    let is : filled.last_machine ≡ closure = some-injective _ _ (sym filled.ends ∙ e) in
    let memory : entry.memory ≡ stored (m.regs x0) m.slots 0 f.scope m.memory =
      same_memory ∙ ap (λ (k : Machine). k.memory) (sym is) ∙ filled.has_memory in
    let object : entry.regs x0 ≡ m.regs x0 =
      same_object ∙ ap (λ (k : Machine). k.regs x0) (sym is) ∙ filled.same_object in
    enter_level-Went caps entry (λ h callee. Carried f m name h.frame callee)
      (λ h frame. rw frame (
        find_last-numbered m.slots opened.last_machine.slots name 0 f.scope neither λ i captured at.
          sym (
            opened.loaded (0 + i) (omega arith) (omega (arith, get_elem?-lt f.scope i at))
            ∙ rw (memory, object) (stored-at (m.regs x0) m.slots 0 i f.scope m.memory at))))
      g g₀ opens
