-- ===== src/Codegen/Framed/Program.antt =====
-- `compile_program` of gen2-dcc-rs/src/codegen.rs, up to the object.
use dacelo.Base.{
  ℕ, zero, suc, ◌+◌, refl, arith, Bool, true, false, List, [], ◌∷◌, Option, none, some,
}
use dacelo.Base.Text.{Text}
use dacelo.Codegen.{Codegen, new_fn_label, alloc_global, set_global, fill_global, builtins, x1}
use dacelo.Codegen.Framed.{Good, Ensures, Any, step}
use dacelo.Codegen.Framed.Exprs.{expr-Ensures}
use dacelo.Codegen.Framed.Sound.{Sound, Makes, makes, chain, onward, inside, idle_with}
use dacelo.Codegen.Framed.Functions.{
  recorded, fn_prologue-Makes, fn_epilogue-Makes, set_frame-Makes,
}
use dacelo.Codegen.Framed.Calls.{
  emit_plain, return-Ensures, read-Ensures, next_u32-Ensures, new_label-Ensures,
  set_label_sym-Ensures, ctor-Ensures, global-Ensures, call_rt-Ensures, emit_gget-Ensures,
  load_unit-Ensures,
}
use dacelo.Codegen.Functions.{
  wrap_lams, expr_size, compile_def, compile_defs, compile_item, compile_items, register_ctors,
  init_global, init_builtins, init_ctor, init_ctors, init_thunks, emit_init, call_main,
  emit_user_main,
}
use dacelo.Codegen.Frames.{emit_apply}
use dacelo.Syntax.{Def, Item, def, rec_group, ty}

new_fn_label-Makes :
    (sym : Text) (b : Bool) {g : Codegen} → Sound g → Makes 0 g (new_fn_label sym b)
unfolding new_fn_label
new_fn_label-Makes sym b s = inside s λ v. step (new_label-Ensures v) λ l g₁ v₁ _ _.
    step (set_label_sym-Ensures l sym b v₁) λ _ g₂ v₂ _ _. return-Ensures {Q = Any} l v₂ tt

set_global-Makes :
    (name : Text) (idx next : ℕ) {g : Codegen} → Sound g → Makes 0 g (set_global name idx next)
unfolding set_global
set_global-Makes name idx next s = makes (recorded tt s refl refl s.good.aligned s.good.scope_below)

pub alloc_global-Makes : (name : Text) {g : Codegen} → Sound g → Makes 0 g (alloc_global name)
unfolding alloc_global
alloc_global-Makes name s = onward (inside s (λ v. read-Ensures _ v)) λ idx g₁ s₁.
    onward (inside s₁ (λ v. next_u32-Ensures idx v))
      λ next g₂ s₂. onward (set_global-Makes name idx next s₂) λ _ g₃ s₃. idle_with idx s₃

-- What the bodies of definitions may leave for later.
def_size : Def → ℕ
def_size d = expr_size (wrap_lams d.params d.body)

defs_size : List Def → ℕ
unfolding def_size
defs_size [] = 0
defs_size (d ∷ ds) = def_size d + defs_size ds

item_size : Item → ℕ
unfolding defs_size
item_size (def d) = defs_size (d ∷ [])
item_size (rec_group ds) = defs_size ds
item_size (ty t) = 0

pub items_size : List Item → ℕ
unfolding item_size
items_size [] = 0
items_size (item ∷ items) = item_size item + items_size items

compile_def-Makes : (d : Def) {g : Codegen} → Sound g → Makes (def_size d) g (compile_def d)
unfolding compile_def def_size
compile_def-Makes d s = onward (new_fn_label-Makes _ false s) λ label g₁ s₁.
    onward (inside s₁ (λ v. emit_plain _ v refl)) λ _ g₂ s₂.
      onward (fn_prologue-Makes 0 s₂) λ _ g₃ s₃. onward (set_frame-Makes 0 [] s₃ tt) λ _ g₄ s₄.
        chain {w = 0} (omega arith) (inside s₄ (λ v. expr-Ensures (wrap_lams d.params d.body) v))
          λ _ g₅ s₅.
            onward (inside s₅ (λ v. read-Ensures _ v))
              λ n g₆ s₆. onward (fn_epilogue-Makes n s₆) λ _ g₇ s₇. idle_with label s₇

compile_defs-Makes :
    (ds : List Def) {g : Codegen} → Sound g → Makes (defs_size ds) g (compile_defs ds)
unfolding compile_defs defs_size
compile_defs-Makes [] s = idle_with _ s
compile_defs-Makes (d ∷ ds) s = onward (alloc_global-Makes d.name s) λ slot g₁ s₁.
    chain {w = defs_size ds} (omega arith) (compile_def-Makes d s₁) λ label g₂ s₂.
      chain {w = 0} (omega arith) (compile_defs-Makes ds s₂) λ thunks g₃ s₃. idle_with _ s₃

compile_item-Makes :
    (item : Item) {g : Codegen} → Sound g → Makes (item_size item) g (compile_item item)
unfolding compile_item item_size
compile_item-Makes (def d) s = compile_defs-Makes (d ∷ []) s
compile_item-Makes (rec_group ds) s = compile_defs-Makes ds s
compile_item-Makes (ty t) s = idle_with _ s

pub compile_items-Makes :
    (items : List Item) {g : Codegen} → Sound g → Makes (items_size items) g (compile_items items)
unfolding compile_items items_size
compile_items-Makes [] s = idle_with _ s
compile_items-Makes (item ∷ items) s =
    chain {w = items_size items} (omega arith) (compile_item-Makes item s) λ thunks g₁ s₁.
      chain {w = 0} (omega arith) (compile_items-Makes items s₁) λ others g₂ s₂. idle_with _ s₂

register_ctors-Makes :
    (id : ℕ) (names : List Text) {g : Codegen} → Sound g → Makes 0 g (register_ctors id names)
unfolding register_ctors
register_ctors-Makes id [] s = idle_with _ s
register_ctors-Makes id (name ∷ names) s =
    onward (inside s (λ v. ctor-Ensures name v)) λ (tag, arity) g₁ s₁.
      onward (inside s₁ (λ v. emit_plain _ v refl)) λ _ g₂ s₂.
        onward (inside s₂ (λ v. call_rt-Ensures _ v))
          λ _ g₃ s₃. register_ctors-Makes (suc id) names s₃

fill_global-Ensures : (slot : ℕ) {g : Codegen} → Good g → Ensures 0 Any g (fill_global slot)
unfolding fill_global
fill_global-Ensures slot v = step (emit_plain _ v refl) λ _ g₁ v₁ _ _. call_rt-Ensures _ v₁

init_global-Makes :
    (idx : ℕ) (name : Text) (slot : ℕ) {g : Codegen}
    → Sound g
    → Makes 0 g (init_global idx name slot)
unfolding init_global
init_global-Makes idx name slot s = inside s λ v.
    step (emit_plain _ v refl)
      λ _ g₁ v₁ _ _. step (call_rt-Ensures name v₁) λ _ g₂ v₂ _ _. fill_global-Ensures slot v₂

init_builtins-Makes :
    (idx : ℕ) (names : List Text) {g : Codegen} → Sound g → Makes 0 g (init_builtins idx names)
unfolding init_builtins
init_builtins-Makes idx [] s = idle_with _ s
init_builtins-Makes idx (name ∷ names) s =
    onward (inside s (λ v. global-Ensures name v)) λ slot g₁ s₁.
      onward (init_global-Makes idx _ slot s₁) λ _ g₂ s₂. init_builtins-Makes (suc idx) names s₂

init_ctor-Makes :
    (id arity : ℕ) (name : Text) {g : Codegen} → Sound g → Makes 0 g (init_ctor id arity name)
unfolding init_ctor
init_ctor-Makes id zero name s = idle_with _ s
init_ctor-Makes id (suc arity) name s =
    onward (inside s (λ v. global-Ensures name v)) λ slot g₁ s₁. init_global-Makes id _ slot s₁

init_ctors-Makes : (names : List Text) {g : Codegen} → Sound g → Makes 0 g (init_ctors names)
unfolding init_ctors
init_ctors-Makes [] s = idle_with _ s
init_ctors-Makes (name ∷ names) s =
    onward (inside s (λ v. ctor-Ensures name v)) λ (id, arity) g₁ s₁.
      onward (init_ctor-Makes id arity name s₁) λ _ g₂ s₂. init_ctors-Makes names s₂

init_thunks-Makes : (thunks : List (ℕ × ℕ)) {g : Codegen} → Sound g → Makes 0 g (init_thunks thunks)
unfolding init_thunks
init_thunks-Makes [] s = idle_with _ s
init_thunks-Makes ((slot, label) ∷ thunks) s =
    onward (inside s (λ v. emit_plain _ v refl)) λ _ g₁ s₁.
      onward (inside s₁ (λ v. fill_global-Ensures slot v)) λ _ g₂ s₂. init_thunks-Makes thunks s₂

pub emit_init-Makes : (thunks : List (ℕ × ℕ)) {g : Codegen} → Sound g → Makes 0 g (emit_init thunks)
unfolding emit_init
emit_init-Makes thunks s = onward (new_fn_label-Makes _ true s) λ l g₁ s₁.
    onward (inside s₁ (λ v. emit_plain _ v refl)) λ _ g₂ s₂.
      onward (fn_prologue-Makes 0 s₂) λ _ g₃ s₃.
        onward (inside s₃ (λ v. read-Ensures _ v)) λ names g₄ s₄.
          onward (register_ctors-Makes 0 names s₄) λ _ g₅ s₅.
            onward (init_builtins-Makes 0 builtins s₅) λ _ g₆ s₆.
              onward (init_ctors-Makes names s₆)
                λ _ g₇ s₇. onward (init_thunks-Makes thunks s₇) λ _ g₈ s₈. fn_epilogue-Makes 0 s₈

call_main-Makes : (main_g : Option ℕ) {g : Codegen} → Sound g → Makes 0 g (call_main main_g)
unfolding call_main emit_apply
call_main-Makes none s = idle_with _ s
call_main-Makes (some slot) s = inside s λ v.
    step (emit_gget-Ensures slot v)
      λ _ g₁ v₁ _ _. step (load_unit-Ensures x1 v₁) λ _ g₂ v₂ _ _. emit_plain _ v₂ refl

pub emit_user_main-Makes :
    (main_g : Option ℕ) {g : Codegen} → Sound g → Makes 0 g (emit_user_main main_g)
unfolding emit_user_main
emit_user_main-Makes main_g s = onward (new_fn_label-Makes _ true s) λ l g₁ s₁.
    onward (inside s₁ (λ v. emit_plain _ v refl)) λ _ g₂ s₂.
      onward (fn_prologue-Makes 0 s₂)
        λ _ g₃ s₃. onward (call_main-Makes main_g s₃) λ _ g₄ s₄. fn_epilogue-Makes 0 s₄
