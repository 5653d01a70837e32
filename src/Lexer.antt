-- ===== src/Lexer.antt =====
-- gen0-interp-rs/src/lexer.rs: from characters to tokens with their line and column. The
-- characters not yet read, with the line and column of the first of them, are the lexer's state
-- (`i`, `line` and `col` in the source). The main loop runs on fuel, one unit for each round.
pub mod Counters
pub mod Positions
pub mod Sound
pub mod Strings
use dacelo.Base.{
  ℕ, zero, suc, ◌+◌, ◌-◌, ◌^◌, Bool, true, false, not, ◌&&◌, ◌||◌, List, [], ◌∷◌, ◌++◌, Option,
  none, some, ◌==◌, leb, if◌then◌else◌, length,
}
use dacelo.Base.Int.{ℤ, pos}
use dacelo.Base.Text.{Text, codes, text_eq}
use dacelo.Base.Decimal.{is_digit, parse_number}

pub data Tok : Type 0 where
  int : ℤ → Tok
  str ident upper kw sym : Text → Tok
  eof : Tok

pub record Token : Type 0 where
  pub tok : Tok
  pub line : ℕ
  pub col : ℕ

-- The four messages, each with its line and column.
pub data LexError : Type 0 where
  overflow : ℕ → ℕ → Text → LexError
  unterminated : ℕ → ℕ → LexError
  unknown_escape unexpected : ℕ → ℕ → ℕ → LexError

-- `unreachable` is the macro of that name; `timeout` is the end of the fuel.
pub data Lexed {ℓ} (A : Type ℓ) : Type ℓ where
  ok : A → Lexed A
  err : LexError → Lexed A
  unreachable timeout : Lexed A

infixl 5 ◌>>=◌
abbrev pub ◌>>=◌ {ℓ κ} : {A : Type ℓ} {B : Type κ} → Lexed A → (A → Lexed B) → Lexed B
ok a >>= f = f a
err e >>= f = err e
unreachable >>= f = unreachable
timeout >>= f = timeout

abbrev pub keywords : List Text
keywords =
    codes "let"
    ∷ codes "rec"
    ∷ codes "and"
    ∷ codes "in"
    ∷ codes "if"
    ∷ codes "then"
    ∷ codes "else"
    ∷ codes "case"
    ∷ codes "of"
    ∷ codes "fun"
    ∷ codes "true"
    ∷ codes "false"
    ∷ codes "type"
    ∷ []

abbrev pub syms2 : List Text
syms2 =
    codes "->"
    ∷ codes "=="
    ∷ codes "!="
    ∷ codes "<="
    ∷ codes ">="
    ∷ codes "&&"
    ∷ codes "||"
    ∷ codes "++"
    ∷ codes "::"
    ∷ []

abbrev pub syms1 : Text
syms1 = codes "()[] ,;:|_<>=+-*/%"

unfoldable pub contains : Text → ℕ → Bool
contains [] c = false
contains (x ∷ xs) c = x == c || contains xs c

unfoldable pub member : List Text → Text → Bool
member [] s = false
member (x ∷ xs) s = text_eq x s || member xs s

-- `char::is_whitespace`
unfoldable pub is_whitespace : ℕ → Bool
is_whitespace c =
    leb 0x09 c && leb c 0x0D
    || c == 0x20
    || c == 0x85
    || c == 0xA0
    || c == 0x1680
    || leb 0x2000 c && leb c 0x200A
    || c == 0x2028
    || c == 0x2029
    || c == 0x202F
    || c == 0x205F
    || c == 0x3000

abbrev pub is_ascii_uppercase : ℕ → Bool
is_ascii_uppercase c = leb b'A' c && leb c b'Z'

abbrev pub is_ascii_alphabetic : ℕ → Bool
is_ascii_alphabetic c = is_ascii_uppercase c || leb b'a' c && leb c b'z'

-- The first character of an identifier, and a later one.
unfoldable pub starts_ident : ℕ → Bool
starts_ident c = is_ascii_alphabetic c || c == b'_'

unfoldable pub in_ident : ℕ → Bool
in_ident c = is_ascii_alphabetic c || is_digit c || c == b'_' || c == b'\''

-- The line and the column are a `u32` each in the source.
pub record Cursor : Type 0 where
  pub rest : Text
  pub line : ℕ
  pub col : ℕ

-- `bump!()` past the character `c`, with `rest` behind it. The counters do not overflow here.
unfoldable pub bump : ℕ → Text → Cursor → Cursor
bump c rest k =
    if c == b'\n'
    then record { rest = rest; line = k.line + 1; col = 1 }
    else record { rest = rest; line = k.line; col = k.col + 1 }

-- `while i < chars.len() && test(chars[i]) { bump!(); }`, with the characters passed.
unfoldable pub bump_while : (ℕ → Bool) → Text → Cursor → Text × Cursor
bump_while test [] k = ([], k)
bump_while test (c ∷ cs) k =
    let (taken, k') = bump_while test cs (bump c cs k) in
    if test c then (c ∷ taken, k') else ([], k)

unfoldable pub escaped : ℕ → Option ℕ
escaped c =
    if c == b'n'
    then some b'\n'
    else if c == b't'
    then some b'\t'
    else if c == b'r'
    then some b'\r'
    else if c == b'0'
    then some 0
    else if c == b'\\'
    then some b'\\'
    else if c == b'"'
    then some b'"'
    else none

abbrev pub prepend : ℕ → Lexed (Text × Cursor) → Lexed (Text × Cursor)
prepend c r = r >>= λ (s, k). ok (c ∷ s, k)

-- The loop of a string literal that began at (l0, c0), from behind its opening quote.
unfoldable pub lex_string : ℕ → ℕ → Text → Cursor → Lexed (Text × Cursor)
lex_string l0 c0 [] k = err (unterminated l0 c0)
lex_string l0 c0 (c ∷ []) k = if c == b'"' then ok ([], bump c [] k) else err (unterminated l0 c0)
lex_string l0 c0 (c ∷ d ∷ cs) k =
    let behind = bump c (d ∷ cs) k in
    let plain = prepend c (lex_string l0 c0 (d ∷ cs) behind) in
    let escape : Lexed (Text × Cursor) = elim (escaped d) [
      | none ↦ err (unknown_escape behind.line behind.col d)
      | some e ↦ prepend e (lex_string l0 c0 cs (bump d cs behind))
    ] in
    if c == b'"' then ok ([], behind) else if c == b'\\' then escape else plain

abbrev pub head_is : ℕ → Text → Bool
head_is c [] = false
head_is c (x ∷ xs) = x == c

-- A token that begins at the cursor `k`, and the cursor behind it.
abbrev pub token : Tok → Cursor → Cursor → Lexed (Option Token × Cursor)
token t k k' = ok (some (record { tok = t; line = k.line; col = k.col }), k')

unfoldable pub lex_int : Cursor → Text × Cursor → Lexed (Option Token × Cursor)
lex_int k (s, k') = elim (parse_number (2 ^ 63) s) [
  | none ↦ err (overflow k.line k.col s)
  | some n ↦ token (Tok.int (pos n)) k k'
]

-- `s.chars().next().unwrap().is_ascii_uppercase()`
unfoldable pub starts_upper : Text → Bool
starts_upper [] = false
starts_upper (c ∷ cs) = is_ascii_uppercase c

unfoldable pub word_tok : Text → Tok
word_tok s =
    if member keywords s then Tok.kw s else if starts_upper s then Tok.upper s else Tok.ident s

unfoldable pub lex_word : Cursor → Text × Cursor → Lexed (Option Token × Cursor)
lex_word k (s, k') = token (word_tok s) k k'

unfoldable pub lex_sym1 : ℕ → Text → Cursor → Lexed (Option Token × Cursor)
lex_sym1 c cs k =
    if contains syms1 c
    then (if c == b' ' then unreachable else token (Tok.sym (c ∷ [])) k (bump c cs k))
    else err (unexpected k.line k.col c)

-- Two characters first.
unfoldable pub lex_sym : ℕ → Text → Cursor → Lexed (Option Token × Cursor)
lex_sym c [] k = lex_sym1 c [] k
lex_sym c (d ∷ cs) k =
    if member syms2 (c ∷ d ∷ [])
    then token (Tok.sym (c ∷ d ∷ [])) k (bump d cs (bump c (d ∷ cs) k))
    else lex_sym1 c (d ∷ cs) k

-- One round of the main loop, on the character `c` with `cs` behind it.
unfoldable pub lex_round : ℕ → Text → Cursor → Lexed (Option Token × Cursor)
lex_round c cs k =
    if is_whitespace c
    then ok (none, bump c cs k)
    else if c == b'-' && head_is b'-' cs
    then ok (none, (bump_while (λ x. not (x == b'\n')) (c ∷ cs) k).1)
    else if is_digit c
    then lex_int k (bump_while is_digit (c ∷ cs) k)
    else if c == b'"'
    then (do (s, k') ← lex_string k.line k.col cs (bump c cs k); token (Tok.str s) k k')
    else if starts_ident c
    then lex_word k (bump_while in_ident (c ∷ cs) k)
    else lex_sym c cs k

abbrev pub add : Option Token → List Token → List Token
add none ts = ts
add (some t) ts = t ∷ ts

unfoldable pub lex_loop : ℕ → Text → Cursor → Lexed (List Token)
lex_loop zero cs k = timeout
lex_loop (suc f) [] k = ok (record { tok = Tok.eof; line = k.line; col = k.col } ∷ [])
lex_loop (suc f) (c ∷ cs) k = do
  (t, k') ← lex_round c cs k
  ts ← lex_loop f k'.rest k'
  ok (add t ts)

unfoldable pub lex : Text → Lexed (List Token)
lex src = lex_loop (suc (length src)) src (record { rest = src; line = 1; col = 1 })
