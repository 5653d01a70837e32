-- ===== src/Syntax.antt =====
-- gen0-interp-rs/src/ast.rs: the syntax tree. A list of patterns, of types, of expressions or of
-- branches inside the tree is a type of its own, declared with the tree.
use dacelo.Base.{Bool, List, Option}
use dacelo.Base.Int.{ℤ}
use dacelo.Base.Text.{Text, codes}

pub data Lit : Type 0 where
  int : ℤ → Lit
  bool : Bool → Lit
  str : Text → Lit
  unit : Lit

mutual
  pub data Pattern : Type 0 where
    wildcard : Pattern
    var : Text → Pattern
    p_lit : Lit → Pattern
    p_tuple : Patterns → Pattern
    p_ctor : Text → Patterns → Pattern

  pub data Patterns : Type 0 where
    p_nil : Patterns
    p_cons : Pattern → Patterns → Patterns

-- `Mod` is `rem` here.
pub data BinOp : Type 0 where
  add sub mul div rem concat cons eq neq lt gt le ge and or : BinOp

mutual
  pub data TyAst : Type 0 where
    t_var : Text → TyAst
    t_con : Text → TyAsts → TyAst
    arrow : TyAst → TyAst → TyAst
    t_tuple : TyAsts → TyAst

  pub data TyAsts : Type 0 where
    t_nil : TyAsts
    t_cons : TyAst → TyAsts → TyAsts

-- `TyAst::list`
unfoldable pub list : TyAst → TyAst
list t = t_con (codes "List") (t_cons t t_nil)

mutual
  pub data Expr : Type 0 where
    lit : Lit → Expr
    var ctor : Text → Expr
    lam : Pattern → Expr → Expr
    app : Expr → Expr → Expr
    bin : BinOp → Expr → Expr → Expr
    if_else : Expr → Expr → Expr → Expr
    case_of : Expr → Branches → Expr
    let_in : Bool → Text → Expr → Expr → Expr
    seq : Expr → Expr → Expr
    tuple : Exprs → Expr
    ann : Expr → TyAst → Expr

  pub data Exprs : Type 0 where
    e_nil : Exprs
    e_cons : Expr → Exprs → Exprs

  pub data Branches : Type 0 where
    b_nil : Branches
    b_cons : Pattern → Expr → Branches → Branches

pub record Def : Type 0 where
  pub name : Text
  pub params : List Pattern
  pub ann : Option TyAst
  pub body : Expr
  pub is_rec : Bool

pub record CtorDecl : Type 0 where
  pub name : Text
  pub fields : TyAsts

pub record TyDecl : Type 0 where
  pub name : Text
  pub params : List Text
  pub ctors : List CtorDecl

pub data Item : Type 0 where
  def : Def → Item
  rec_group : List Def → Item
  ty : TyDecl → Item

pub record Program : Type 0 where
  pub items : List Item
