-- ===== src/Eval.antt =====
-- gen0-interp-rs/src/eval.rs: values, environments and the machine's state. The shared cell of a
-- recursive group (`Rc<RefCell<Vec<(String, Value)>>>`) is an index into `cells`. What a program
-- prints is `out`, the buffer of `OutSink`; files, arguments and commands are those of a `Host`.
pub mod Numbers
pub mod Show
pub mod Match
pub mod Builtins
pub mod Steps
pub mod Interp
use dacelo.Base.{
  ℕ, zero, suc, ◌+◌, Bool, true, false, List, [], ◌∷◌, ◌++◌, Option, none, some, if◌then◌else◌,
  length, get_elem?, set,
}
use dacelo.Base.Int.{ℤ}
use dacelo.Base.Text.{Text, codes, text_eq}
use dacelo.Syntax.{Pattern, Expr}

pub data BuiltinKind : Type 0 where
  print_int print_str int_to_str bool_to_str str_len read_file write_file exit chr ord : BuiltinKind
  str_get substring str_to_int error show argv system : BuiltinKind

unfoldable pub arity : BuiltinKind → ℕ
arity write_file = 2
arity str_get = 2
arity substring = 3
arity _ = 1

-- `BuiltinKind::ALL`
abbrev pub all_builtins : List (BuiltinKind × Text)
all_builtins =
    (print_int, codes "print_int")
    ∷ (print_str, codes "print_string")
    ∷ (int_to_str, codes "int_to_string")
    ∷ (bool_to_str, codes "bool_to_string")
    ∷ (str_len, codes "string_length")
    ∷ (read_file, codes "read_file")
    ∷ (write_file, codes "write_file")
    ∷ (exit, codes "exit")
    ∷ (chr, codes "chr")
    ∷ (ord, codes "ord")
    ∷ (str_get, codes "string_get")
    ∷ (substring, codes "substring")
    ∷ (str_to_int, codes "string_to_int")
    ∷ (error, codes "error")
    ∷ (show, codes "show")
    ∷ (argv, codes "argv")
    ∷ (system, codes "system")
    ∷ []

mutual
  pub data Value : Type 0 where
    int : ℤ → Value
    bool : Bool → Value
    str : Text → Value
    unit : Value
    tuple : Values → Value
    fun : Callable → Value
    -- `CtorVal`: name, tag and fields
    adt : Text → ℕ → Values → Value

  pub data Values : Type 0 where
    v_nil : Values
    v_cons : Value → Values → Values

  pub data Callable : Type 0 where
    -- `ClosureData`: group, pattern, body and environment
    closure : Option ℕ → Pattern → Expr → Env → Callable
    builtin : BuiltinKind → Values → Callable
    -- name, tag, arity and arguments so far
    ctor_partial : Text → ℕ → ℕ → Values → Callable

  pub data Env : Type 0 where
    empty : Env
    bind : Env → Text → Value → Env

unfoldable pub lookup : Env → Text → Option Value
lookup empty name = none
lookup (bind env n v) name = if text_eq n name then some v else lookup env name

abbrev pub Binds : Type 0
Binds = List (Text × Value)

-- `for (n, v) in binds { env = env.bind(&n, v); }`
unfoldable pub bind_all : Env → Binds → Env
bind_all env [] = env
bind_all env ((n, v) ∷ bs) = bind_all (bind env n v) bs

unfoldable pub v_length : Values → ℕ
v_length v_nil = 0
v_length (v_cons v vs) = suc (v_length vs)

-- `args.push(arg)`
unfoldable pub v_push : Values → Value → Values
v_push v_nil a = v_cons a v_nil
v_push (v_cons v vs) a = v_cons v (v_push vs a)

-- The operating system and the formatting that the standard library gives.
pub record Host : Type 1 where
  pub World : Type 0
  pub read_to_string : Text → World → Option Text
  pub write : Text → Text → World → Option World
  -- `std::env::args().nth(n).unwrap_or_default()`
  pub nth_arg : ℕ → World → Text
  pub run_command : Text → World → ℤ × World
  -- `format!("{:?}", s)` of a string
  pub debug : Text → Text

pub record Machine (W : Type 0) : Type 0 where
  pub out : Text
  pub ctors : List (Text × (ℕ × ℕ))
  pub cells : List Binds
  pub world : W

-- The messages that a run can fail with.
pub data EvalError : Type 0 where
  duplicate_definition not_a_function : Text → EvalError
  cannot_apply match_failed non_exhaustive : Value → EvalError
  unknown_constructor unbound_variable : Text → EvalError
  bad_char : ℤ → EvalError
  out_of_bounds : ℤ → ℤ → ℕ → EvalError
  not_char_boundary division_by_zero modulo_by_zero compare_functions : EvalError
  cannot_parse user_error read_failed write_failed : Text → EvalError

-- `panic` is an `unreachable!` or an index out of range; `exited` is `process::exit`.
pub data Outcome (W A : Type 0) : Type 0 where
  ok : A → Machine W → Outcome W A
  err : EvalError → Machine W → Outcome W A
  exited : ℤ → Machine W → Outcome W A
  panic timeout : Outcome W A

abbrev pub M : Type 0 → Type 0 → Type 0
M W A = Machine W → Outcome W A

infixl 5 ◌>>=◌ ◌>>◌
abbrev pub ◌>>=◌ : {W A B : Type 0} → M W A → (A → M W B) → M W B
◌>>=◌ m f s = elim (m s) [
  | ok a s' ↦ f a s'
  | err e s' ↦ err e s'
  | exited n s' ↦ exited n s'
  | panic ↦ panic
  | timeout ↦ timeout
]

abbrev pub ◌>>◌ : {W A B : Type 0} → M W A → M W B → M W B
m >> k = m >>= λ _. k

abbrev pub return : {W A : Type 0} → A → M W A
return a s = ok a s

abbrev pub fail : {W A : Type 0} → EvalError → M W A
fail e s = err e s

abbrev pub unreachable : {W A : Type 0} → M W A
unreachable s = panic

abbrev pub out_of_fuel : {W A : Type 0} → M W A
out_of_fuel s = timeout

-- `.ok_or_else(|| e)?`
abbrev pub require : {W A : Type 0} → EvalError → Option A → M W A
require e none s = err e s
require e (some a) s = ok a s
