-- ===== src/Derive/Tests/Parser.antt =====
-- A small parser of attributes, over tokens, that satisfies the laws.
use Prim.Native.String.{String}
use vmkit_core.Prelude.{ℕ, zero, suc, ◌≡◌, subst, Bool, true, false, List, [], ◌∷◌, arith}
use vmkit_core.Derive.{Syn, SynLaws}
use vmkit_core.Derive.Outcome.{Result, ok, err, syn_error, ◌>>=◌, >>=-eq-ok}

pub data Token : Type 0 where
  word : String → Token
  eq comma lparen rparen : Token
  boolean : Bool → Token
  expr type : ℕ → Token

abbrev pub Tokens : Type 0
Tokens = List Token

-- What stands behind a meta: the end, a comma and more, or something that is refused.
pub data Rest : Type 0 where
  ends more : Tokens → Rest
  refused : Rest

abbrev pub rest : Tokens → Rest
rest [] = ends []
rest (rparen ∷ ts) = ends ts
rest (comma ∷ ts) = more ts
rest (_ ∷ ts) = refused

abbrev pub resume : {S : Type 0} → S → (Tokens → Result (S × Tokens)) → Rest → Result (S × Tokens)
resume s again (ends t) = ok (s, t)
resume s again (more t) = again t
resume s again refused = err syn_error

resume-preserves :
    {S : Type 0} (P : S → Type 0) (s s' : S) (i' : Tokens) (again : Tokens → Result (S × Tokens))
    (r : Rest)
    → P s
    → ((t : Tokens) → again t ≡ ok (s', i') → P s')
    → resume s again r ≡ ok (s', i')
    → P s'
resume-preserves P s s' i' again (ends t) h k e = let q : s ≡ s' = ground (arith, e) in subst P q h
resume-preserves P s s' i' again (more t) h k e = k t e
resume-preserves P s s' i' again refused h k e = absurd (ground (arith, e))

module _ {S : Type 0} (logic : S → String → Tokens → Result (S × Tokens)) where
  -- The metas between commas, up to the end or a closing parenthesis.
  pub metas : (fuel : ℕ) → S → Tokens → Result (S × Tokens)
  metas zero s ts = err syn_error
  metas (suc n) s [] = ok (s, [])
  metas (suc n) s (rparen ∷ ts) = ok (s, ts)
  metas (suc n) s (word k ∷ ts) = logic s k ts >>= λ (s', r). resume s' (λ t. metas n s' t) (rest r)
  metas (suc n) s (_ ∷ ts) = err syn_error

  module _ (P : S → Type 0)
      (preserves : (s s' : S) (k : String) (i i' : Tokens)
        → P s
        → logic s k i ≡ ok (s', i')
        → P s') where
    metas-preserves : (n : ℕ) (s s' : S) (i i' : Tokens) → P s → metas n s i ≡ ok (s', i') → P s'
    unfolding metas
    metas-preserves zero s s' i i' h e = absurd (ground (arith, e))
    metas-preserves (suc n) s s' [] i' h e = let q : s ≡ s' = ground (arith, e) in subst P q h
    metas-preserves (suc n) s s' (rparen ∷ ts) i' h e =
        let q : s ≡ s' = ground (arith, e) in subst P q h
    metas-preserves (suc n) s s' (word k ∷ ts) i' h e =
        let ((s1, r), p, f) = >>=-eq-ok (logic s k ts) _ e in
        resume-preserves P s1 s' i' (λ t. metas n s1 t) (rest r) (preserves s s1 k ts r h p)
          (λ t. metas-preserves n s1 s' t i' (preserves s s1 k ts r h p)) f
    metas-preserves (suc n) s s' (eq ∷ ts) i' h e = absurd (ground (arith, e))
    metas-preserves (suc n) s s' (comma ∷ ts) i' h e = absurd (ground (arith, e))
    metas-preserves (suc n) s s' (lparen ∷ ts) i' h e = absurd (ground (arith, e))
    metas-preserves (suc n) s s' (boolean b ∷ ts) i' h e = absurd (ground (arith, e))
    metas-preserves (suc n) s s' (expr b ∷ ts) i' h e = absurd (ground (arith, e))
    metas-preserves (suc n) s s' (type b ∷ ts) i' h e = absurd (ground (arith, e))

abbrev pub eat : Tokens → Result Tokens
eat (eq ∷ ts) = ok ts
eat _ = err syn_error

abbrev pub eat_word : Tokens → Result (String × Tokens)
eat_word (word k ∷ ts) = ok (k, ts)
eat_word _ = err syn_error

abbrev pub eat_bool : Tokens → Result (Bool × Tokens)
eat_bool (boolean b ∷ ts) = ok (b, ts)
eat_bool _ = err syn_error

-- An expression, which may stand in parentheses.
abbrev pub eat_expr : Tokens → Result (ℕ × Tokens)
eat_expr (expr e ∷ ts) = ok (e, ts)
eat_expr (lparen ∷ expr e ∷ rparen ∷ ts) = ok (e, ts)
eat_expr _ = err syn_error

abbrev pub eat_type : Tokens → Result (ℕ × Tokens)
eat_type (type t ∷ ts) = ok (t, ts)
eat_type _ = err syn_error

abbrev pub is_eq : Tokens → Bool
is_eq (eq ∷ ts) = true
is_eq _ = false

abbrev pub is_open : Tokens → Bool
is_open (lparen ∷ ts) = true
is_open _ = false

abbrev pub is_nil : Tokens → Bool
is_nil [] = true
is_nil _ = false

unfoldable pub nested_metas :
    {S : Type 0} → (S → String → Tokens → Result (S × Tokens)) → S → Tokens → Result (S × Tokens)
unfolding metas
nested_metas logic s (lparen ∷ ts) = metas logic 16 s ts
nested_metas logic s _ = err syn_error

unfoldable pub attribute_metas :
    {S : Type 0} → (S → String → Tokens → Result (S × Tokens)) → S → String × Tokens → Result S
unfolding metas
attribute_metas logic s attr = metas logic 16 s attr.1 >>= λ (s', r). ok s'

abbrev pub small_syn : Syn
small_syn = record {
  Input = Tokens;
  Attribute = String × Tokens;
  Expr = ℕ;
  Ty = ℕ;
  attribute_path = λ attr. attr.0;
  peek_eq = is_eq;
  peek_paren = is_open;
  is_empty = is_nil;
  parse_eq = eat;
  parse_ident = eat_word;
  parse_bool = eat_bool;
  parse_expr = eat_expr;
  parse_type = eat_type;
  parse_nested_meta = nested_metas;
  parse_attribute = attribute_metas;
  u8 = 1;
}

pub small_syn-laws : SynLaws small_syn
unfolding nested_metas attribute_metas
small_syn-laws = record {
  nested = λ P logic preserves s s' i i' h e. nested_lem P logic preserves s s' i i' h e;
  attribute = λ P logic preserves s s' attr h e.
      let ((s1, r), p, f) = >>=-eq-ok (metas logic 16 s attr.1) _ e in
      let q : s1 ≡ s' = ground (arith, f) in
      subst P q (metas-preserves logic P preserves 16 s s1 attr.1 r h p);
}
  where
    nested_lem :
        {S : Type 0} (P : S → Type 0) (logic : S → String → Tokens → Result (S × Tokens))
        → ((s s' : S) (path : String) (i i' : Tokens) → P s → logic s path i ≡ ok (s', i') → P s')
        → (s s' : S) (i i' : Tokens) → P s
        → nested_metas logic s i ≡ ok (s', i')
        → P s'
    nested_lem P logic preserves s s' (lparen ∷ ts) i' h e =
        metas-preserves logic P preserves 16 s s' ts i' h e
    nested_lem P logic preserves s s' _ i' h e = absurd (ground (arith, e))
