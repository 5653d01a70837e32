-- ===== src/Macho/Names.antt =====
-- The symbol table of gen2-dcc-rs/src/macho.rs: what a name is looked up as is the entry that has
-- the name in the string table.
use dacelo.Base.{
  ℕ, zero, suc, ◌%◌, ◌^◌, ◌<◌, ◌≡◌, refl, ◌∙◌, arith, Bool, true, false, List, [], ◌∷◌, ◌++◌,
  Option, some, if◌then◌else◌, length, get_elem?, get_elem?-append, inl, inr, ◌⊎◌,
}
use mathlib.Core.Path.{subst}
use dacelo.Base.Text.{Text, text_eq, text_eq_iff}
use dacelo.Base.Utf8.{bytes}
use dacelo.Macho.{Symbol, ObjectBuilder}
use dacelo.Macho.Symbols.{
  NList, SymTab, empty_symtab, push_symbol, add_symbol, add_symbols, symbols, index_of,
}
use dacelo.Macho.Places.{At, At-append, At-end}

-- Entry `i` has the name `n`, written with its closing zero.
pub record Named (n : Text) (i : ℕ) (t : SymTab) : Type 0 where
  pub entry : NList
  pub found : get_elem? t.nlists i ≡ some entry
  pub start : ℕ
  pub stroff : entry.stroff ≡ start % 2 ^ 32
  pub written : At start (bytes n ++ 0 ∷ []) t.strtab

abbrev pub AllNamed : SymTab → Type 0
AllNamed t = (n : Text) (i : ℕ) → index_of n t.sym_index ≡ some i → Named n i t

some-lt : {A : Type 0} (xs : List A) (i : ℕ) {x : A} → get_elem? xs i ≡ some x → i < length xs
some-lt [] i h = cc
some-lt (x ∷ xs) zero h = omega arith
some-lt (x ∷ xs) (suc i) h = omega (arith, some-lt xs i h)

get_elem?-last : {A : Type 0} (xs : List A) (x : A) → get_elem? (xs ++ x ∷ []) (length xs) ≡ some x
get_elem?-last [] x = refl
get_elem?-last (y ∷ xs) x = get_elem?-last xs x

Named-push :
    {n : Text} {i : ℕ} (t : SymTab) (name : Text) (ty sect value : ℕ)
    → Named n i t
    → Named n i (push_symbol name ty sect value t)
unfolding push_symbol
Named-push {n} {i} t name ty sect value d = record {
  entry = d.entry;
  found = get_elem?-append t.nlists _ i (some-lt t.nlists i d.found) ∙ d.found;
  start = d.start;
  stroff = d.stroff;
  written = At-append (bytes name ++ 0 ∷ []) d.written;
}

Named-new :
    (t : SymTab) (name : Text) (ty sect value : ℕ)
    → Named name (length t.nlists) (push_symbol name ty sect value t)
unfolding push_symbol
Named-new t name ty sect value = record {
  entry = record {
    stroff = length t.strtab % 2 ^ 32;
    ty = ty;
    sect = sect;
    desc = 0;
    value = value % 2 ^ 64;
  };
  found = get_elem?-last t.nlists _;
  start = length t.strtab;
  stroff = refl;
  written = At-end (length t.strtab) t.strtab (bytes name ++ 0 ∷ []) refl;
}

if-inv :
    (b : Bool) (k : ℕ) (o : Option ℕ) {i : ℕ}
    → (if b then some k else o) ≡ some i
    → ((b ≡ true) × (k ≡ i)) ⊎ (o ≡ some i)
if-inv true k o h = inl (refl, cc)
if-inv false k o h = inr h

push_symbol-AllNamed :
    (t : SymTab) (name : Text) (ty sect value : ℕ)
    → AllNamed t
    → AllNamed (push_symbol name ty sect value t)
unfolding index_of
push_symbol-AllNamed t name ty sect value all n i h =
    newest
      (if-inv (text_eq name n) (length t.nlists) (index_of n t.sym_index) (unfold push_symbol in h))
  where
    newest :
        ((text_eq name n ≡ true) × (length t.nlists ≡ i)) ⊎ (index_of n t.sym_index ≡ some i)
        → Named n i (push_symbol name ty sect value t)
    newest (inl (e, k)) =
        subst (λ m. Named n m (push_symbol name ty sect value t)) k
          (subst (λ m. Named m (length t.nlists) (push_symbol name ty sect value t))
            ((text_eq_iff name n).0 e) (Named-new t name ty sect value))
    newest (inr older) = Named-push t name ty sect value (all n i older)

add_symbols-AllNamed :
    (data_addr : ℕ) (ss : List Symbol) (t : SymTab)
    → AllNamed t
    → AllNamed (add_symbols data_addr ss t)
unfolding add_symbols add_symbol
add_symbols-AllNamed data_addr [] t all = all
add_symbols-AllNamed data_addr (s ∷ ss) t all =
    add_symbols-AllNamed data_addr ss _ (push_symbol-AllNamed t s.name _ _ _ all)

empty_symtab-AllNamed : AllNamed empty_symtab
unfolding empty_symtab index_of
empty_symtab-AllNamed n i h = cc

-- What a name is looked up as is the number of a symbol entry, and the name stands with a closing
-- zero in the string table, at an offset whose low 32 bits are the entry's string offset.
pub symbols-Named :
    (b : ObjectBuilder) (n : Text) (i : ℕ)
    → index_of n (symbols b).sym_index ≡ some i
    → Named n i (symbols b)
unfolding symbols
symbols-Named b = add_symbols-AllNamed _ _ empty_symtab empty_symtab-AllNamed
