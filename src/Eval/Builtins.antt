-- ===== src/Eval/Builtins.antt =====
-- `call_builtin` and `binop` of gen0-interp-rs/src/eval.rs. A Rust `String` is its characters here,
-- with its UTF-8 bytes computed where the source counts or indexes bytes.
pub mod Slices
pub mod Trim
use dacelo.Base.{
  ℕ, zero, suc, ◌+◌, ◌-◌, ◌*◌, ◌/◌, ◌%◌, ◌^◌, Bool, true, false, not, ◌&&◌, ◌||◌, List, [], ◌∷◌,
  ◌++◌, Option, none, some, ◌==◌, if◌then◌else◌, ltb, leb, length, get_elem?,
}
use mathlib.Core.Option
use mathlib.Core.List.{reverse, head?}
use dacelo.Base.Int.{ℤ, pos, negsuc, as_unsigned, as_signed}
use dacelo.Base.Decimal.{parse_number, is_digit}
use dacelo.Base.Utf8.{utf8, bytes}
use dacelo.Base.Text.{Text, codes, text_eq}
use dacelo.Lexer.{is_whitespace, contains}
use dacelo.Syntax.{BinOp}
use dacelo.Eval.{
  BuiltinKind, Value, int, bool, str, unit, tuple, fun, adt, Values, v_nil, v_cons, Host, Machine,
  EvalError, Outcome, M, ◌>>=◌, ◌>>◌, return, fail, unreachable, require, bad_char, out_of_bounds,
  not_char_boundary, division_by_zero, modulo_by_zero, cannot_parse, user_error, read_failed,
  write_failed,
}
use dacelo.Eval.Numbers.{
  lt_ℤ, is_zero, wrapping_add, wrapping_sub, wrapping_mul, wrapping_div, wrapping_rem, wrap64,
}
use dacelo.Eval.Show.{int_text, bool_text, show_value}
use dacelo.Eval.Match.{Checked, Ctors, get_ctor, eq_value}

-- `s[..n]` and `s[n..]`, if `n` is a character boundary of `s`.
unfoldable pub split_at_byte : ℕ → Text → Option (Text × Text)
unfolding utf8
split_at_byte zero s = some ([], s)
split_at_byte (suc n) [] = none
split_at_byte (suc n) (c ∷ cs) =
    let rest = split_at_byte (suc n - length (utf8 c)) cs in
    if ltb (suc n) (length (utf8 c)) then none else Option.map (λ (l, r). (c ∷ l, r)) rest

-- `s[st..en]`, if both are character boundaries.
unfoldable pub slice : ℕ → ℕ → Text → Option Text
unfolding split_at_byte
slice st en s = elim (split_at_byte en s) [
  | none ↦ none
  | some (l, _) ↦ Option.map (λ p. p.1) (split_at_byte st l)
]

-- `char::from_u32`, of an `i64`
unfoldable pub char_of : ℤ → Option ℕ
char_of (pos n) = if ltb n 0xD800 || leb 0xE000 n && ltb n 0x110000 then some n else none
char_of (negsuc n) = none

-- `s.as_bytes()[i]`, or -1 out of range
unfoldable pub byte_or : Option ℕ → Value
byte_or none = int (negsuc 0)
byte_or (some b) = int (pos b)

unfoldable pub string_get : Text → ℤ → Value
unfolding byte_or bytes
string_get s (negsuc n) = int (negsuc 0)
string_get s (pos n) = byte_or (get_elem? (bytes s) n)

-- The range check adds with wrap-around.
unfoldable pub substring : Text → ℤ → ℤ → Checked Value
unfolding slice bytes wrapping_add
substring s start len =
    let size = length (bytes s) in
    let end = wrapping_add start len in
    let bad_start =
      lt_ℤ start (pos 0)
      || lt_ℤ len (pos 0)
      || ltb size (as_unsigned 64 start)
      || lt_ℤ (pos size) end in
    if bad_start
    then Checked.err (out_of_bounds start end size)
    else elim (slice (as_unsigned 64 start) (as_unsigned 64 end) s) [
      | none ↦ Checked.err not_char_boundary
      | some t ↦ Checked.ok (str t)
    ]

unfoldable pub trim_start : Text → Text
unfolding is_whitespace
trim_start [] = []
trim_start (c ∷ cs) = let rest = trim_start cs in if is_whitespace c then rest else c ∷ cs

-- `s.trim()`
abbrev pub trim : Text → Text
trim s = reverse (trim_start (reverse (trim_start s)))

unfoldable pub negated : ℕ → ℤ
negated zero = pos 0
negated (suc n) = negsuc n

-- `parse::<i64>()`: an optional sign, then digits
unfoldable pub parse_i64 : Text → Option ℤ
unfolding parse_number negated
parse_i64 [] = none
parse_i64 (c ∷ cs) =
    if c == b'-'
    then Option.map negated (parse_number (2 ^ 63 + 1) cs)
    else Option.map pos (parse_number (2 ^ 63) (if c == b'+' then cs else c ∷ cs))

module _ (h : Host) where
  open h use {World, read_to_string, write, nth_arg, run_command, debug}

  -- `self.out.write(s)`
  abbrev pub print : Text → M World (Unit {0})
  print s m = Outcome.ok tt (record m { out = m.out ++ s })

  abbrev pub lift : {A : Type 0} → Checked A → M World A
  lift (Checked.ok a) m = Outcome.ok a m
  lift (Checked.err e) m = Outcome.err e m

  -- `none` is a panic
  abbrev or_panic : {A : Type 0} → Option A → M World A
  or_panic none m = Outcome.panic
  or_panic (some a) m = Outcome.ok a m

  abbrev do_read : Text → M World Value
  do_read p m = elim (read_to_string p m.world) [
    | none ↦ Outcome.err (read_failed p) m
    | some s ↦ Outcome.ok (str s) m
  ]

  abbrev do_write : Text → Text → M World Value
  do_write p s m = elim (write p s m.world) [
    | none ↦ Outcome.err (write_failed p) m
    | some w ↦ Outcome.ok unit (record m { world = w })
  ]

  -- `CString::new` refuses a zero inside the command.
  abbrev do_system : Text → M World Value
  do_system c m =
      if contains c 0
      then Outcome.panic
      else let (n, w) = run_command c m.world in Outcome.ok (int n) (record m { world = w })

  abbrev do_argv : ℤ → M World Value
  do_argv i m = Outcome.ok (str (nth_arg (as_unsigned 64 (wrapping_add i (pos 1))) m.world)) m

  -- `std::process::exit(*n as i32)`
  abbrev do_exit : ℤ → M World Value
  do_exit n m = Outcome.exited (as_signed 32 (as_unsigned 32 n)) m

  unfoldable pub call_builtin : BuiltinKind → Values → M World Value
  unfolding int_text bool_text bytes char_of string_get substring parse_i64 trim_start show_value
      contains
  call_builtin BuiltinKind.print_int (v_cons (int n) _) = do print (int_text n); return unit
  call_builtin BuiltinKind.print_int (v_cons _ _) = return unit
  call_builtin BuiltinKind.print_str (v_cons (str s) _) = do print s; return unit
  call_builtin BuiltinKind.print_str (v_cons _ _) = return unit
  call_builtin BuiltinKind.int_to_str (v_cons (int n) _) = return (str (int_text n))
  call_builtin BuiltinKind.bool_to_str (v_cons (bool b) _) = return (str (bool_text b))
  call_builtin BuiltinKind.str_len (v_cons (str s) _) = return (int (pos (length (bytes s))))
  call_builtin BuiltinKind.read_file (v_cons (str p) _) = do_read p
  call_builtin BuiltinKind.write_file (v_cons (str p) (v_cons (str s) _)) = do_write p s
  call_builtin BuiltinKind.exit (v_cons (int n) _) = do_exit n
  call_builtin BuiltinKind.chr (v_cons (int n) _) = do
    c ← require (bad_char n) (char_of n)
    return (str (c ∷ []))
  call_builtin BuiltinKind.ord (v_cons (str s) _) = return (byte_or (head? (bytes s)))
  call_builtin BuiltinKind.str_get (v_cons (str s) (v_cons (int i) _)) = return (string_get s i)
  call_builtin BuiltinKind.substring (v_cons (str s) (v_cons (int i) (v_cons (int n) _))) =
      lift (substring s i n)
  call_builtin BuiltinKind.str_to_int (v_cons (str s) _) = do
    n ← require (cannot_parse s) (parse_i64 (trim s))
    return (int n)
  call_builtin BuiltinKind.error (v_cons (str s) _) = fail (user_error s)
  call_builtin BuiltinKind.show (v_cons v _) = do t ← or_panic (show_value debug v); return (str t)
  call_builtin BuiltinKind.argv (v_cons (int i) _) = do_argv i
  call_builtin BuiltinKind.system (v_cons (str c) _) = do_system c
  call_builtin _ _ = unreachable

  -- `int_op` and `int_op_checked`
  unfoldable pub int_op : (ℤ → ℤ → Checked ℤ) → Value → Value → M World Value
  int_op f (int a) (int b) = do n ← lift (f a b); return (int n)
  int_op f _ _ = unreachable

  unfoldable pub checked_div : ℤ → ℤ → Checked ℤ
  checked_div a b =
      if is_zero b then Checked.err division_by_zero else Checked.ok (wrapping_div a b)

  unfoldable pub checked_rem : ℤ → ℤ → Checked ℤ
  checked_rem a b = if is_zero b then Checked.err modulo_by_zero else Checked.ok (wrapping_rem a b)

  unfoldable pub compare_op : (ℤ → ℤ → Bool) → Value → Value → M World Value
  compare_op f (int a) (int b) = return (bool (f a b))
  compare_op f _ _ = unreachable

  unfoldable pub concat_op : Value → Value → M World Value
  concat_op (str a) (str b) = return (str (a ++ b))
  concat_op _ _ = unreachable

  -- `self.ctors.get("Cons").unwrap().0`
  unfoldable pub cons_op : Value → Value → M World Value
  cons_op l r m = elim (get_ctor (codes "Cons") m.ctors) [
    | none ↦ Outcome.panic
    | some (tag, _) ↦ Outcome.ok (adt (codes "Cons") tag (v_cons l (v_cons r v_nil))) m
  ]

  unfoldable pub binop : BinOp → Value → Value → M World Value
  unfolding int_op checked_div checked_rem compare_op concat_op cons_op get_ctor text_eq eq_value
  binop BinOp.add l r = int_op (λ a b. Checked.ok (wrapping_add a b)) l r
  binop BinOp.sub l r = int_op (λ a b. Checked.ok (wrapping_sub a b)) l r
  binop BinOp.mul l r = int_op (λ a b. Checked.ok (wrapping_mul a b)) l r
  binop BinOp.div l r = int_op checked_div l r
  binop BinOp.rem l r = int_op checked_rem l r
  binop BinOp.concat l r = concat_op l r
  binop BinOp.cons l r = cons_op l r
  binop BinOp.eq l r = do b ← lift (eq_value l r); return (bool b)
  binop BinOp.neq l r = do b ← lift (eq_value l r); return (bool (not b))
  binop BinOp.lt l r = compare_op lt_ℤ l r
  binop BinOp.gt l r = compare_op (λ a b. lt_ℤ b a) l r
  binop BinOp.le l r = compare_op (λ a b. not (lt_ℤ b a)) l r
  binop BinOp.ge l r = compare_op (λ a b. not (lt_ℤ a b)) l r
  binop BinOp.and l r = unreachable
  binop BinOp.or l r = unreachable
