-- ===== src/Tests/EvalTests.antt =====
-- Tests of the model of gen0-interp-rs/src/eval.rs: a program that prints 5!, and the theorems at
-- concrete values.
use dacelo.Base.{◌+◌, ◌≡◌, ◌↔◌, refl, arith, true, false, [], ◌∷◌, ◌++◌, Option, none, some}
use dacelo.Base.Int.{pos, negsuc}
use dacelo.Base.Text.{Text, codes, text_eq}
use dacelo.Base.Utf8.{utf8, bytes}
use dacelo.Base.Decimal.{to_decimal}
use dacelo.Syntax.{
  Lit, Pattern, wildcard, p_ctor, p_nil, p_cons, Expr, lit, app, bin, if_else, BinOp, Item, Program,
}
use dacelo.Eval.{
  BuiltinKind, Value, int, str, adt, v_nil, v_cons, Host, EvalError, unbound_variable, Outcome,
  arity, lookup, bind_all, v_length, v_push,
}
use dacelo.Eval.Numbers.{◌+ℤ◌, ◌-ℤ◌, ◌*ℤ◌, wrap64, wrapping_add, wrapping_sub, wrapping_mul}
use dacelo.Eval.Show.{int_text, show_value, show_value-Cons_one}
use dacelo.Eval.Match.{Checked, Ctors, get_ctor, pat_match, eq_value, p_length}
use dacelo.Eval.Match.Spec.{Matches, pat_match_iff}
use dacelo.Eval.Match.Equality.{
  data_int, data_adt, each as data_each, none_left as no_data, eq_value_refl, eq_value_comm,
}
use dacelo.Eval.Builtins.{slice, split_at_byte, substring, call_builtin, int_op, compare_op, binop}
use dacelo.Eval.Builtins.Slices.{Part, substring_lem}
use dacelo.Eval.Builtins.Trim.{call_builtin-int_text}
use dacelo.Lexer.{is_whitespace}
use dacelo.Eval.Steps.{
  new, wrap_params_ast, duplicate, has_name, set_group, patch, unless_duplicate, seed,
  match_pattern, get_var, apply_builtin, if_op, closure_env,
}
use dacelo.Eval.Interp.{
  eval, apply, eval_group, fill_group, define_rec_group, run_item, define_all, call_main, run_items,
}

-- A host with no files and no arguments.
abbrev host : Host
host = record {
  World = Unit {0};
  read_to_string = λ p w. none;
  write = λ p s w. none;
  nth_arg = λ n w. [];
  run_command = λ c w. (pos 0, w);
  debug = λ s. b'"' ∷ s ++ b'"' ∷ [];
}

abbrev var : Text → Expr
var = Expr.var

abbrev fact_body : Expr
fact_body =
    if_else (bin BinOp.le (var (codes "n")) (lit (Lit.int (pos 1)))) (lit (Lit.int (pos 1))) (
      bin BinOp.mul (var (codes "n"))
        (app (var (codes "fact")) (bin BinOp.sub (var (codes "n")) (lit (Lit.int (pos 1))))))

-- let rec fact n = if n <= 1 then 1 else n * fact (n - 1)
-- let main _ = print_int (fact 5)
abbrev program : Program
program = record {
  items =
      Item.def record {
        name = codes "fact";
        params = Pattern.var (codes "n") ∷ [];
        ann = none;
        body = fact_body;
        is_rec = true;
      }
      ∷ Item.def record {
        name = codes "main";
        params = wildcard ∷ [];
        ann = none;
        body = app (var (codes "print_int")) (app (var (codes "fact")) (lit (Lit.int (pos 5))));
        is_rec = false;
      }
      ∷ [];
}

abbrev output : Outcome (Unit {0}) Value → Text
output (Outcome.ok v m) = m.out
output _ = []

output-program : output (run_items host 40 program (new [] tt)) ≡ codes "120"
unfolding run_items define_all run_item define_rec_group unless_duplicate duplicate has_name
    fill_group eval_group patch set_group wrap_params_ast seed lookup call_main apply closure_env
    match_pattern pat_match bind_all eval get_var apply_builtin arity v_length v_push call_builtin
    if_op binop int_op compare_op int_text text_eq new wrapping_sub wrapping_mul wrap64 to_decimal
    ◌-ℤ◌ ◌*ℤ◌
output-program = refl

-- type List = Nil | Cons Int List
abbrev ctors : Ctors
ctors = (codes "Nil", (0, 0)) ∷ (codes "Cons", (1, 2)) ∷ []

abbrev one_list : Value
one_list = adt (codes "Cons") 1 (v_cons (int (pos 7)) (v_cons (adt (codes "Nil") 0 v_nil) v_nil))

-- Cons x _
abbrev cons_pattern : Pattern
cons_pattern = p_ctor (codes "Cons") (p_cons (Pattern.var (codes "x")) (p_cons wildcard p_nil))

pat_match_iff_example :
    (pat_match ctors cons_pattern one_list [] ≡ Checked.ok (some ((codes "x", int (pos 7)) ∷ [])))
    ↔ Matches ctors cons_pattern one_list ((codes "x", int (pos 7)) ∷ [])
pat_match_iff_example = pat_match_iff ctors cons_pattern one_list ((codes "x", int (pos 7)) ∷ [])

pattern_matches :
    pat_match ctors cons_pattern one_list [] ≡ Checked.ok (some ((codes "x", int (pos 7)) ∷ []))
unfolding pat_match get_ctor text_eq p_length v_length
pattern_matches = refl

eq_value_refl_example : eq_value one_list one_list ≡ Checked.ok true
eq_value_refl_example =
    eq_value_refl one_list (data_adt (data_each data_int (data_each (data_adt no_data) no_data)))

eq_value_comm_example : eq_value one_list (int (pos 3)) ≡ eq_value (int (pos 3)) one_list
eq_value_comm_example = eq_value_comm one_list (int (pos 3))

cut : substring (codes "dacelo") (pos 2) (pos 3) ≡ Checked.ok (str (codes "cel"))
unfolding substring slice split_at_byte bytes utf8 wrapping_add ◌+ℤ◌ wrap64
cut = refl

substring_lem_example : Part 2 (2 + 3) (codes "dacelo") (codes "cel")
substring_lem_example = substring_lem (codes "dacelo") 2 3 (omega arith) cut

call_builtin-int_text_example :
    (t : Text) × (call_builtin host BuiltinKind.int_to_str
        (v_cons (int (negsuc 41)) v_nil)
        (new [] tt)
      ≡ Outcome.ok (str t) (new [] tt))
    × (call_builtin host BuiltinKind.str_to_int
          (v_cons (str (codes " " ++ (t ++ codes "\n"))) v_nil)
          (new [] tt)
        ≡ Outcome.ok (int (negsuc 41)) (new [] tt))
unfolding is_whitespace
call_builtin-int_text_example =
    call_builtin-int_text host (negsuc 41) (codes " ") (codes "\n") (new [] tt) (omega arith)
      (refl, tt) (refl, tt)

-- let rec fact n = ...
-- let f = fact
-- let main _ = print_int (f 5)
abbrev alias_program : Program
alias_program = record {
  items =
      Item.def record {
        name = codes "fact";
        params = Pattern.var (codes "n") ∷ [];
        ann = none;
        body = fact_body;
        is_rec = true;
      }
      ∷ Item.def record {
        name = codes "f";
        params = [];
        ann = none;
        body = var (codes "fact");
        is_rec = false;
      }
      ∷ Item.def record {
        name = codes "main";
        params = wildcard ∷ [];
        ann = none;
        body = app (var (codes "print_int")) (app (var (codes "f")) (lit (Lit.int (pos 5))));
        is_rec = false;
      }
      ∷ [];
}

abbrev failure : Outcome (Unit {0}) Value → Option EvalError
failure (Outcome.err e m) = some e
failure _ = none

-- The group of the alias replaces that of the function, which then does not find itself.
alias_fails :
    failure (run_items host 40 alias_program (new [] tt)) ≡ some (unbound_variable (codes "fact"))
unfolding run_items define_all run_item define_rec_group unless_duplicate duplicate has_name
    fill_group eval_group patch set_group wrap_params_ast seed lookup call_main apply closure_env
    match_pattern pat_match bind_all eval get_var apply_builtin arity v_length v_push call_builtin
    if_op binop int_op compare_op int_text text_eq new wrapping_sub wrapping_mul wrap64 to_decimal
    ◌-ℤ◌ ◌*ℤ◌
alias_fails = refl

show_value-Cons_one_example :
    show_value (λ s. s) (adt (codes "Cons") 0 (v_cons (int (pos 1)) v_nil)) ≡ none
show_value-Cons_one_example = show_value-Cons_one (λ s. s) 0 (int (pos 1))
