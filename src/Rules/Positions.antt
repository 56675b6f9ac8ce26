-- ===== src/Rules/Positions.antt =====
-- Termination of the lexer, and where its tokens and errors lie (apps/datacore/src/ruledsl.ts, `lex`).
use complete.Base.{
  Char, code, inl, inr, ◌⊎◌, ℕ, zero, suc, ◌+◌, ◌-◌, ◌≤◌, ◌<◌, String, Bool, true, List, [], ◌∷◌,
  ◌≡◌, refl, arith, leb,
}
use complete.Rules.{
  str, userref, unterminated_string, unterminated_reference, Form, Token, DslError,
}
use complete.Rules.Lexer.{
  trim, size, take_while, drop_while, tail_of, is_not, in_number, in_ident, Turn, skipped, made,
  wrong, closing, closed_by, operator, turn, Lexed, tokens, bad, exhausted, add_token, resume,
  lex_from, lex,
}

pub size-drop_while : (p : Char → Bool) (s : String) → size (drop_while p s) ≤ size s
unfolding drop_while
size-drop_while p String.[] = omega arith
size-drop_while p (String.◌∷◌ c s) = ground (arith, size-drop_while p s)

size-tail_of : (s : String) → size (tail_of s) ≤ size s
size-tail_of String.[] = omega arith
size-tail_of (String.◌∷◌ c s) = omega arith

String-cases : (s : String) → (s ≡ "") ⊎ ((c : Char) × (rest : String) × (s ≡ String.◌∷◌ c rest))
String-cases String.[] = inl refl
String-cases (String.◌∷◌ c s) = inr (c, s, refl)

module _ {N : Type 0} where
  -- A turn leaves no more than `n` characters.
  abbrev leaves : ℕ → Turn N → Bool
  leaves n (skipped s) = leb (size s) n
  leaves n (made form s) = leb (size s) n
  leaves n (wrong e) = true

  closing-leaves :
      (n : ℕ) (form : Form N) (e : DslError) (s : String)
      → size s ≤ n
      → leaves n (closing form e s) ≡ true
  closing-leaves n form e String.[] h = refl
  closing-leaves n form e (String.◌∷◌ c s) h = ground arith

  closed_by-leaves :
      (n close : ℕ) (form : String → Form N) (e : DslError) (s : String)
      → size s ≤ n
      → leaves n (closed_by close form e s) ≡ true
  unfolding closed_by
  closed_by-leaves n close form e s h =
      closing-leaves n (form (take_while (is_not close) s)) e (drop_while (is_not close) s)
        (omega (arith, size-drop_while (is_not close) s))

module _ (N : Type 0) where
  operator-leaves :
      (n : ℕ) (c : Char) (s : String) → size s ≤ n → leaves {N = N} n (operator c s) ≡ true
  unfolding operator
  operator-leaves n c s h = ground (arith, size-tail_of s)

module _ {N : Type 0} where
  turn-leaves :
      (number : String → N) (c : Char) (s : String) → leaves (size s) (turn number c s) ≡ true
  unfolding turn
  turn-leaves number c s =
      let quoted =
        closed_by-leaves {N = N} (size s) (code c) str unterminated_string s (omega arith) in
      let reference =
        closed_by-leaves {N = N} (size s) b'}' (λ v. userref (trim v)) unterminated_reference
          (tail_of s) (size-tail_of s) in
      let other = operator-leaves N (size s) c s (omega arith) in
      let numbers = size-drop_while in_number s in
      let names = size-drop_while in_ident s in
      ground (arith, quoted, reference, other, numbers, names)

  -- Places that rise from `i` on, below `n`.
  abbrev pub InOrder : ℕ → ℕ → List (Token N) → Type 0
  InOrder i n [] = Unit
  InOrder i n (t ∷ ts) = (i ≤ t.pos) × (t.pos < n) × InOrder (suc t.pos) n ts

  abbrev pub IsLocated : ℕ → ℕ → Lexed N → Type 0
  IsLocated i n (tokens ts) = InOrder i n ts
  IsLocated i n (bad e p) = (i ≤ p) × (p < n)
  IsLocated i n exhausted = ⊥

  InOrder-mono :
      (i j m n : ℕ) (ts : List (Token N)) → i ≤ j → m ≡ n → InOrder j m ts → InOrder i n ts
  InOrder-mono i j m n [] le e h = tt
  InOrder-mono i j m n (t ∷ ts) le e h =
      (omega arith, omega arith, InOrder-mono (suc t.pos) (suc t.pos) m n ts (omega arith) e h.2)

  IsLocated-mono : (i j m n : ℕ) (l : Lexed N) → i ≤ j → m ≡ n → IsLocated j m l → IsLocated i n l
  IsLocated-mono i j m n (tokens ts) le e h = InOrder-mono i j m n ts le e h
  IsLocated-mono i j m n (bad e p) le same h = (omega arith, omega arith)
  IsLocated-mono i j m n exhausted le e h = h

  add_token-IsLocated :
      (form : Form N) (i n : ℕ) (l : Lexed N)
      → i < n
      → IsLocated (suc i) n l
      → IsLocated i n (add_token form i l)
  add_token-IsLocated form i n (tokens ts) lt h = (omega arith, lt, h)
  add_token-IsLocated form i n (bad e p) lt h = (omega arith, omega arith)
  add_token-IsLocated form i n exhausted lt h = h

  resume-IsLocated :
      (go : ℕ → String → Lexed N) (i n : ℕ) (t : Turn N)
      → ((j : ℕ) (s : String) → size s ≤ n → IsLocated j (j + size s) (go j s))
      → leaves n t ≡ true
      → IsLocated i (i + suc n) (resume go i (suc n) t)
  resume-IsLocated go i n (skipped s) ih h =
      let le : size s ≤ n = ground arith in
      let j = i + (suc n - size s) in
      IsLocated-mono i j (j + size s) (i + suc n) (go j s) (omega arith) (omega arith) (ih j s le)
  resume-IsLocated go i n (made form s) ih h =
      let le : size s ≤ n = ground arith in
      let j = i + (suc n - size s) in
      add_token-IsLocated form i (i + suc n) (go j s) (omega arith) (
        IsLocated-mono (suc i) j (j + size s) (i + suc n) (go j s) (omega arith) (omega arith)
          (ih j s le))
  resume-IsLocated go i n (wrong e) ih h = (omega arith, omega arith)

  lex_from-IsLocated :
      (number : String → N) (f i : ℕ) (s : String)
      → size s < f
      → IsLocated i (i + size s) (lex_from number f i s)
  unfolding lex_from
  lex_from-IsLocated number zero i s lt = absurd (omega arith)
  lex_from-IsLocated number (suc f) i String.[] lt = tt
  lex_from-IsLocated number (suc f) i (String.◌∷◌ c s) lt =
      resume-IsLocated (lex_from number f) i (size s) (turn number c s)
        (λ j r le. lex_from-IsLocated number f j r (omega arith)) (turn-leaves number c s)

  -- The lexer ends on any text, with tokens whose places rise and lie in the text, or with an error at
  -- a place in the text.
  pub lex-IsLocated : (number : String → N) (s : String) → IsLocated 0 (size s) (lex number s)
  unfolding lex
  lex-IsLocated number s =
      IsLocated-mono 0 0 (0 + size s) (size s) (lex_from number (suc (size s)) 0 s) (omega arith)
        (omega arith) (lex_from-IsLocated number (suc (size s)) 0 s (omega arith))
