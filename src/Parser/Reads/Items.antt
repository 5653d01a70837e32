-- ===== src/Parser/Reads/Items.antt =====
-- gen0-interp-rs/src/parser.rs: what the parsers of items read, and what `parse` returns, on its own
-- and behind `lex` of gen0-interp-rs/src/lexer.rs.
use dacelo.Base.{ℕ, ◌≡◌, arith, Bool, true, false, not, List, length}
use dacelo.Base.Text.{Text, codes}
use dacelo.Lexer.{Tok, Token, Lexed, lex}
use dacelo.Lexer.Sound.{Ensures, good, Tokens, lex-Ensures}
use dacelo.Syntax.{Def, Item, Program}
use dacelo.Parser.{Problem, Parsed, ok, err, bad_type_application, bind, and_without_rec, is_kw}
use dacelo.Parser.Types.{starts_type_atom}
use dacelo.Parser.Items.{
  is_ident, is_eof, ctor_decl, parse_tydef, let_tail, and_tails, let_group, let_item, item_at,
  parse_item, parse_items, parse,
}
use dacelo.Parser.Reads.{
  EndsEof, Outcome, done, failed, bad_type, Reads, ReadsAt, run_reads, Reads-return, Reads-fail,
  Reads-next, ReadsAt-Reads, Reads-bind, Reads-then, ReadsAt-if, Reads-on_peek, Reads-if_peek,
}
use dacelo.Parser.Reads.Symbols.{Reads-expect_sym, Reads-eat_sym, Reads-eat_kw}
use dacelo.Parser.Reads.Loops.{
  Reads-less, Reads-step, parse_ident-Reads, parse_upper-Reads, many-Reads, sep_by-Reads,
}
use dacelo.Parser.Reads.Types.{parse_atomty-Reads, parse_type-Reads}
use dacelo.Parser.Reads.Forms.{parse_let_tail-Reads, parse_expr-Reads}

ctor_decl-Reads : (f : ℕ) → Reads 1 f (ctor_decl f)
unfolding ctor_decl
ctor_decl-Reads f =
    let field = Reads-less (parse_atomty-Reads (parse_type-Reads f)) in
    Reads-bind (parse_upper-Reads f)
      λ name. Reads-bind (many-Reads f starts_type_atom field) λ fields. Reads-return _

parse_tydef-Reads : (f : ℕ) → Reads 1 f (parse_tydef f)
unfolding parse_tydef
parse_tydef-Reads f = Reads-then (Reads-eat_kw (codes "type")) λ b.
    Reads-bind (parse_upper-Reads f) λ name.
      Reads-bind (many-Reads f is_ident (parse_ident-Reads f)) λ params.
        Reads-step (Reads-expect_sym (codes "=")) λ u.
          Reads-bind (Reads-eat_sym (codes "|"))
            λ b. Reads-step (sep_by-Reads f (codes "|") (ctor_decl-Reads f)) λ ctors. Reads-return _

let_tail-Reads : (f : ℕ) (is_rec : Bool) → Reads 1 f (let_tail f is_rec)
unfolding let_tail
let_tail-Reads f = parse_let_tail-Reads (parse_expr-Reads f)

and_tails-Reads : (f : ℕ) → Reads 0 f (and_tails f)
unfolding and_tails
and_tails-Reads f =
    many-Reads f (is_kw (codes "and")) (Reads-then Reads-next λ u. let_tail-Reads f true)

let_group-Reads : (f : ℕ) (is_rec : Bool) (first : Def) → Reads 0 f (let_group f is_rec first)
unfolding let_group
let_group-Reads f true first =
    Reads-if_peek {test = is_kw (codes "and")}
      (λ t e. ReadsAt-Reads (Reads-bind (and_tails-Reads f) λ group. Reads-return _))
      (Reads-return _)
let_group-Reads f false first =
    Reads-if_peek {test = is_kw (codes "and")} (λ t e. ReadsAt-Reads (Reads-fail and_without_rec))
      (Reads-return _)

let_item-Reads : (f : ℕ) → Reads 1 f (let_item f)
unfolding let_item
let_item-Reads f = Reads-then (Reads-eat_kw (codes "let")) λ b.
    Reads-then (Reads-eat_kw (codes "rec"))
      λ is_rec. Reads-bind (let_tail-Reads f is_rec) λ first. let_group-Reads f is_rec first

item_at-ReadsAt : (f : ℕ) (t : Tok) → ReadsAt 1 f t (item_at f t)
unfolding item_at
item_at-ReadsAt f t =
    ReadsAt-if (is_kw (codes "let") t) (λ e. ReadsAt-Reads (let_item-Reads f))
      λ e.
        ReadsAt-if (is_kw (codes "type") t) (λ e. ReadsAt-Reads (parse_tydef-Reads f))
          λ e. ReadsAt-Reads (Reads-fail _)

parse_item-Reads : (f : ℕ) → Reads 1 f (parse_item f)
unfolding parse_item
parse_item-Reads f = Reads-on_peek (item_at-ReadsAt f)

parse_items-Reads : (f : ℕ) → Reads 0 f (parse_items f)
unfolding parse_items
parse_items-Reads f = many-Reads f (λ t. not (is_eof t)) (parse_item-Reads f)

-- An answer: a program or one of the parser's errors.
pub data Answer {ℓ} {A : Type ℓ} : Parsed A → Type ℓ where
  program : {a : A} → Answer (ok a)
  problem : {p : Problem} {t : Token} → Answer (err p t)
  bad_application : {t : _} → Answer (bad_type_application t)

Outcome-Answer :
    {n : ℕ} {r : Parsed (List Item × List Token)}
    → Outcome 0 n r
    → Answer {A = Program} (bind r λ (items, rest). ok (record { items = items }))
unfolding bind
Outcome-Answer (done x l) = program
Outcome-Answer failed = problem
Outcome-Answer bad_type = bad_application

-- On tokens that end with the end of the input, `parse` returns a program or an error, with its
-- number of tokens as the fuel: no loop of it runs on, no token is looked for past the last one, and
-- the code marked unreachable is not reached.
pub parse-Answer : (toks : List Token) → EndsEof toks → Answer (parse toks)
unfolding parse
parse-Answer toks x =
    Outcome-Answer (run_reads (parse_items-Reads (length toks)) toks x (omega arith))

Tokens-EndsEof : {src : Text} {n : ℕ} {toks : List Token} → Tokens src n toks → EndsEof toks
Tokens-EndsEof (Tokens.last e s) = EndsEof.last e
Tokens-EndsEof (Tokens.more rest l h w s t) = EndsEof.more (Tokens-EndsEof t)

Ensures-ok :
    {src : Text} {toks : List Token}
    → Ensures (Tokens src (length src)) (Lexed.ok toks)
    → Tokens src (length src) toks
Ensures-ok (good t) = t

-- What `lex` returns for any text, `parse` answers with a program or an error.
pub parse-lex : (src : Text) (toks : List Token) → lex src ≡ Lexed.ok toks → Answer (parse toks)
parse-lex src toks e = parse-Answer toks (Tokens-EndsEof (Ensures-ok (rw e at (lex-Ensures src))))
