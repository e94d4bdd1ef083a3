-- ===== src/Tokenize/Reread.antt =====
-- How `push_path_tokens` of crates/logdrain/src/tokenize.rs reads a word that is put together from texts
-- and single delimiters.
use logdrain.Common.{
  ℕ, ◌+◌, List, [], ◌∷◌, ◌++◌, append-nil, append_assoc, Option, none, some, ◌≡◌, ◌≢◌, refl, sym,
  ◌∙◌, ap, true, false, Text, length, length-append, length-map, map, map-append, All, contains,
  nat_eq, ◌==◌, arith,
}
use logdrain.Tokenize.{Token, push_segment, path_loop, push_path_tokens}
use logdrain.Tokenize.Clean.{IsPlain}

abbrev pub texts : List Token → List Text
texts tokens = map (λ (t : Token). t.text) tokens

texts-push_segment :
    (seg : Text) (leading trailing : Option ℕ) (out : List Token)
    → seg ≢ []
    → texts (push_segment seg leading trailing out) ≡ texts out ++ seg ∷ []
unfolding push_segment
texts-push_segment [] leading trailing out n = absurd (n refl)
texts-push_segment (c ∷ seg) leading trailing out n = map-append (λ (t : Token). t.text) out _

module _ (delims : List ℕ) where
  -- A text without delimiters joins the open segment.
  path_loop-append :
      (lead : Option ℕ) (text seg rest : Text) (out : List Token)
      → All (IsPlain delims) text
      → path_loop delims lead seg (text ++ rest) out ≡ path_loop delims lead (seg ++ text) rest out
  unfolding path_loop
  path_loop-append lead [] seg rest out h =
      ap (λ s. path_loop delims lead s rest out) (sym (append-nil seg))
  path_loop-append lead (c ∷ text) seg rest out h =
      rw (h.0, path_loop)
        (path_loop-append lead text (seg ++ c ∷ []) rest out h.1
          ∙ ap (λ s. path_loop delims lead s rest out) (append_assoc seg (c ∷ []) text))

  path_loop-delim :
      (lead : Option ℕ) (c : ℕ) (seg rest : Text) (out : List Token)
      → contains delims c ≡ true
      → path_loop delims lead seg (c ∷ rest) out
        ≡ path_loop delims (some c) [] rest (push_segment seg lead (some c) out)
  unfolding path_loop
  path_loop-delim lead c seg rest out h = rw (h, path_loop)

  -- Having read `word`, the loop has pushed the texts `done`, and `seg` is open.
  pub record IsRead (word : Text) (done : List Text) (seg : Text) : Type 0 where
    pub lead : Option ℕ
    pub pushed : List Token → List Token
    pub read :
        (rest : Text) (out : List Token)
        → path_loop delims none [] (word ++ rest) out ≡ path_loop delims lead seg rest (pushed out)
    pub texts_pushed : (out : List Token) → texts (pushed out) ≡ texts out ++ done

  pub first-IsRead : (text : Text) → All (IsPlain delims) text → IsRead text [] text
  first-IsRead text h = record {
    lead = none;
    pushed = λ out. out;
    read = λ rest out. path_loop-append none text [] rest out h;
    texts_pushed = λ out. sym (append-nil (texts out));
  }

  pub leading-IsRead :
      (c : ℕ) (text : Text)
      → contains delims c ≡ true
      → All (IsPlain delims) text
      → IsRead (c ∷ text) [] text
  unfolding push_segment
  leading-IsRead c text d h = record {
    lead = some c;
    pushed = λ out. out;
    read = λ rest out.
        path_loop-delim none c [] (text ++ rest) out d
        ∙ path_loop-append (some c) text [] rest out h;
    texts_pushed = λ out. sym (append-nil (texts out));
  }

  -- A delimiter closes the segment, and the next text opens one.
  pub next-IsRead :
      (word : Text) (done : List Text) (seg : Text) (c : ℕ) (text : Text)
      → IsRead word done seg
      → seg ≢ []
      → contains delims c ≡ true
      → All (IsPlain delims) text
      → IsRead (word ++ c ∷ text) (done ++ seg ∷ []) text
  next-IsRead word done seg c text r n d h = record {
    lead = some c;
    pushed = λ out. push_segment seg r.lead (some c) (r.pushed out);
    read = λ rest out.
        ap (λ w. path_loop delims none [] w out) (append_assoc word (c ∷ text) rest)
        ∙ r.read (c ∷ (text ++ rest)) out
        ∙ path_loop-delim r.lead c seg (text ++ rest) (r.pushed out) d
        ∙ path_loop-append (some c) text [] rest _ h;
    texts_pushed = λ out.
        texts-push_segment seg r.lead (some c) (r.pushed out) n
        ∙ ap (λ ts. ts ++ seg ∷ []) (r.texts_pushed out)
        ∙ append_assoc (texts out) done (seg ∷ []);
  }

  -- A word of which something was pushed is not kept as it is.
  texts-push_path_tokens :
      (word : Text) (found : List Text) (seg : Text) (out : List Token)
      → texts (path_loop delims none [] word out) ≡ texts out ++ (found ++ seg ∷ [])
      → texts (push_path_tokens word delims out) ≡ texts out ++ (found ++ seg ∷ [])
  unfolding push_path_tokens
  texts-push_path_tokens word found seg out e =
      let pushed = path_loop delims none [] word out in
      let longer : length pushed ≡ length out + (length found + 1) =
        sym (length-map (λ (t : Token). t.text) pushed)
        ∙ ap length e
        ∙ length-append (texts out) (found ++ seg ∷ [])
        ∙ omega (arith, length-map (λ (t : Token). t.text) out, length-append found (seg ∷ [])) in
      let ne : (length pushed == length out) ≡ false = ground arith in rw ne e

  -- The end of the word, with the open segment, and with a last delimiter.
  pub texts_closed :
      (word : Text) (done : List Text) (seg : Text) (out : List Token)
      → IsRead word done seg
      → seg ≢ []
      → texts (push_path_tokens word delims out) ≡ texts out ++ (done ++ seg ∷ [])
  unfolding path_loop
  texts_closed word done seg out r n = texts-push_path_tokens word done seg out (
      ap (λ w. texts (path_loop delims none [] w out)) (sym (append-nil word))
      ∙ ap texts (r.read [] out)
      ∙ texts-push_segment seg r.lead none (r.pushed out) n
      ∙ ap (λ ts. ts ++ seg ∷ []) (r.texts_pushed out)
      ∙ append_assoc (texts out) done (seg ∷ []))

  pub texts_delimited :
      (word : Text) (done : List Text) (seg : Text) (c : ℕ) (out : List Token)
      → IsRead word done seg
      → seg ≢ []
      → contains delims c ≡ true
      → texts (push_path_tokens (word ++ c ∷ []) delims out) ≡ texts out ++ (done ++ seg ∷ [])
  unfolding path_loop push_segment
  texts_delimited word done seg c out r n d =
      let next = next-IsRead word done seg c [] r n d tt in
      texts-push_path_tokens (word ++ c ∷ []) done seg out (
        ap (λ w. texts (path_loop delims none [] w out)) (sym (append-nil (word ++ c ∷ [])))
        ∙ ap texts (next.read [] out)
        ∙ next.texts_pushed out)
