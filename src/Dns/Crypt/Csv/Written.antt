-- ===== src/Dns/Crypt/Csv/Written.antt =====
-- A line that is written from fields reads back.
use cdns.Dns.Crypt.Csv.{
  CsvState, csv_push, csv_quote, csv_separator, csv_step, csv_finish, csv_loop, parse_line,
}
use cdns.Prelude.{
  Bytes, length, length-append, All, ok, ℕ, ◌+◌, ◌≤◌, ◌≡◌, refl, sym, ap, ◌∙◌, ◌≢◌, ◌⊎◌, inl, inr,
  Bool, true, false, List, [], ◌∷◌, ◌++◌, map, append-nil, append_assoc, arith,
}

-- A field without quotation marks, or with them around it.
pub data Field : Type 0 where
  plain quoted : Bytes → Field

abbrev pub text_of : Field → Bytes
text_of (plain t) = t
text_of (quoted t) = t

-- The characters a field may have.
abbrev pub IsText : Bool → ℕ → Type 0
IsText in_quotes c = (c ≢ 34) × (c ≢ 13) × (c ≢ 10) × ((c ≢ 44) ⊎ (in_quotes ≡ true))

abbrev pub IsField : Field → Type 0
IsField (plain t) = All (IsText false) t × (length t ≤ 32001)
IsField (quoted t) = All (IsText true) t × (length t ≤ 32001)

unfoldable pub print_field : Field → Bytes
print_field (plain t) = t
print_field (quoted t) = 34 ∷ t ++ 34 ∷ []

-- The fields with separators between them, and the end of the line.
unfoldable pub print_line : Field → List Field → Bytes → Bytes
print_line f [] rest = print_field f ++ 10 ∷ rest
print_line f (g ∷ fs) rest = print_field f ++ 44 ∷ print_line g fs rest

text_step :
    (c : ℕ) (s : CsvState)
    → IsText s.quote_flag c
    → length s.word ≤ 32000
    → csv_step c s ≡ ok (record s { word = s.word ++ c ∷ [] })
unfolding csv_step csv_push
text_step c s h k = ground arith

loop_step :
    (c : ℕ) (text : Bytes) (s : CsvState) {t : CsvState}
    → c ≢ 10
    → csv_step c s ≡ ok t
    → csv_loop (c ∷ text) s ≡ csv_loop text t
unfolding csv_loop
loop_step c text s ne e = rw e (ground arith)

-- The characters of a field are read.
loop_text :
    (t rest : Bytes) (s : CsvState)
    → All (IsText s.quote_flag) t
    → length s.word + length t ≤ 32001
    → csv_loop (t ++ rest) s ≡ csv_loop rest (record s { word = s.word ++ t })
loop_text [] rest s h k = ap (λ w. csv_loop rest (record s { word = w })) (sym (append-nil s.word))
loop_text (c ∷ t) rest s h k =
    let s' = record s { word = s.word ++ c ∷ [] } in
    let n = length-append s.word (c ∷ []) in
    loop_step c (t ++ rest) s h.0.2 (text_step c s h.0 (omega arith))
    ∙ loop_text t rest s' h.1 (omega (arith, n))
    ∙ ap (λ w. csv_loop rest (record s { word = w })) (append_assoc s.word (c ∷ []) t)

-- The state behind a field.
abbrev behind : List Bytes → Field → CsvState
behind ws (plain t) = record {
  words = ws;
  word = t;
  quote_flag = false;
  closing_quote_flag = false;
}
behind ws (quoted t) = record {
  words = ws ++ t ∷ [];
  word = [];
  quote_flag = false;
  closing_quote_flag = true;
}

abbrev start : List Bytes → CsvState
start ws = record { words = ws; word = []; quote_flag = false; closing_quote_flag = false }

loop_field :
    (f : Field) (rest : Bytes) (ws : List Bytes)
    → IsField f
    → csv_loop (print_field f ++ rest) (start ws) ≡ csv_loop rest (behind ws f)
unfolding print_field csv_step csv_quote
loop_field (plain t) rest ws h = loop_text t rest (start ws) h.0 (omega (arith, h.1))
loop_field (quoted t) rest ws h =
    let opened = record (start ws) { quote_flag = true } in
    loop_step 34 ((t ++ 34 ∷ []) ++ rest) (start ws) (omega arith) refl
    ∙ ap (λ x. csv_loop x opened) (append_assoc t (34 ∷ []) rest)
    ∙ loop_text t (34 ∷ rest) opened h.0 (omega (arith, h.1))
    ∙ loop_step 34 rest (record opened { word = t }) (omega arith) refl

-- A separator behind a field.
loop_separator :
    (f : Field) (rest : Bytes) (ws : List Bytes)
    → csv_loop (44 ∷ rest) (behind ws f) ≡ csv_loop rest (start (ws ++ text_of f ∷ []))
unfolding csv_step csv_separator
loop_separator (plain t) rest ws = loop_step 44 rest (behind ws (plain t)) (omega arith) refl
loop_separator (quoted t) rest ws = loop_step 44 rest (behind ws (quoted t)) (omega arith) refl

-- The end of the line behind a field, which is not a first one that is empty and without
-- quotation marks.
loop_end :
    (f : Field) (rest : Bytes) (ws : List Bytes)
    → (f ≢ plain []) ⊎ (ws ≢ [])
    → csv_loop (10 ∷ rest) (behind ws f) ≡ ok (ws ++ text_of f ∷ [], rest)
unfolding csv_loop csv_finish
loop_end (plain []) rest [] h = absurd (elim h [ inl a ↦ a refl | inr b ↦ b refl ])
loop_end (plain []) rest (w ∷ ws) h = ground arith
loop_end (plain (c ∷ t)) rest ws h = ground arith
loop_end (quoted t) rest ws h = ground arith

loop_line :
    (f : Field) (fs : List Field) (rest : Bytes) (ws : List Bytes)
    → IsField f
    → All IsField fs
    → (f ≢ plain []) ⊎ ((ws ≢ []) ⊎ (fs ≢ []))
    → csv_loop (print_line f fs rest) (start ws) ≡ ok (ws ++ text_of f ∷ map text_of fs, rest)
unfolding print_line
loop_line f [] rest ws h hs ne =
    loop_field f (10 ∷ rest) ws h
    ∙ loop_end f rest ws
        (elim ne [ inl a ↦ inl a | inr (inl b) ↦ inr b | inr (inr c) ↦ absurd (c refl) ])
loop_line f (g ∷ fs) rest ws h hs ne =
    loop_field f (44 ∷ print_line g fs rest) ws h
    ∙ loop_separator f (print_line g fs rest) ws
    ∙ loop_line g fs rest (ws ++ text_of f ∷ []) hs.0 hs.1 (inr (inl (snoc_ne ws (text_of f))))
    ∙ ap (λ x. ok (x, rest)) (append_assoc ws (text_of f ∷ []) (text_of g ∷ map text_of fs))
  where
    snoc_ne : (xs : List Bytes) (x : Bytes) → xs ++ x ∷ [] ≢ []
    snoc_ne [] x e = cc
    snoc_ne (y ∷ xs) x e = cc

-- A line of fields with separators between them, each field as it is or between quotation marks, of at
-- most 32001 characters, without quotation marks, carriage returns, line ends and, outside quotation
-- marks, separators: unless the line is empty, it reads back as the texts of the fields, and what is
-- behind the line is left.
pub parse_line-print_line :
    (f : Field) (fs : List Field) (rest : Bytes)
    → IsField f
    → All IsField fs
    → (f ≢ plain []) ⊎ (fs ≢ [])
    → parse_line (print_line f fs rest) ≡ ok (text_of f ∷ map text_of fs, rest)
parse_line-print_line f fs rest h hs ne =
    loop_line f fs rest [] h hs (elim ne [ inl a ↦ inl a | inr b ↦ inr (inr b) ])
