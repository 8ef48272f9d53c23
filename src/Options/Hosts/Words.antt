-- ===== src/Options/Hosts/Words.antt =====
-- parse_hosts gives the words of the list, made small, less those with a byte that no name has.
use mathlib.Core.List.{append_assoc}
use byedpi.Prelude.{
  ℕ, suc, ◌+◌, ◌-◌, ◌≡◌, refl, sym, ap, ◌∙◌, inl, inr, Bool, true, false, ◌||◌, Option, some, List,
  [], ◌∷◌, ◌++◌, map, Bytes, arith, read, read-middle, store, store-overwrite, overwrite-middle,
  load, load-slice, slice-middle, length, length-append, ◌==◌, if◌then◌else◌, if-cases, Bool-cases,
}
use byedpi.Options.Hosts.{lower_char, is_break, add_name, end_name, hosts_loop, parse_hosts}

-- The words of a text; `word` is the one that was begun.
unfoldable pub words_from : Bytes → Bytes → List Bytes
unfolding is_break
words_from word [] = word ∷ []
words_from word (c ∷ cs) =
    if is_break c then word ∷ words_from [] cs else words_from (word ++ (c ∷ [])) cs

abbrev pub words : Bytes → List Bytes
words = words_from []

abbrev pub small : Bytes → Bytes
small = map (λ c. (lower_char c).0)

unfoldable pub is_bad : Bytes → Bool
unfolding lower_char
is_bad [] = false
is_bad (c ∷ cs) = (lower_char c).1 || is_bad cs

-- The names among some words.
unfoldable pub names_of : List Bytes → List Bytes
unfolding is_bad
names_of [] = []
names_of ([] ∷ ws) = names_of ws
names_of ((c ∷ cs) ∷ ws) = if is_bad (c ∷ cs) then names_of ws else small (c ∷ cs) ∷ names_of ws

-- A text after the loop.
unfoldable pub lowered : Bytes → Bytes
unfolding is_break lower_char
lowered [] = []
lowered (c ∷ cs) = (if is_break c then c else (lower_char c).0) ∷ lowered cs

small-snoc :
    (word : Bytes) (c : ℕ) → small (word ++ (c ∷ [])) ≡ small word ++ ((lower_char c).0 ∷ [])
small-snoc [] c = refl
small-snoc (w ∷ ws) c = ap (λ l. (lower_char w).0 ∷ l) (small-snoc ws c)

is_bad-snoc : (word : Bytes) (c : ℕ) → is_bad (word ++ (c ∷ [])) ≡ (is_bad word || (lower_char c).1)
unfolding is_bad
is_bad-snoc [] c = or_false (lower_char c).1
  where
    or_false : (b : Bool) → (b || false) ≡ b
    or_false true = refl
    or_false false = refl
is_bad-snoc (w ∷ ws) c =
    ap (λ b. (lower_char w).1 || b) (is_bad-snoc ws c)
    ∙ or_assoc (lower_char w).1 (is_bad ws) (lower_char c).1
  where
    or_assoc : (a b c : Bool) → (a || (b || c)) ≡ ((a || b) || c)
    or_assoc true b c = refl
    or_assoc false b c = refl

length-small : (word : Bytes) → length (small word) ≡ length word
length-small [] = refl
length-small (w ∷ ws) = ap suc (length-small ws)

-- The begun word is in the buffer.
load-word :
    (pre word rest : Bytes)
    → load (pre ++ (small word ++ rest)) (length pre) (length pre + length word - length pre)
      ≡ some (small word)
load-word pre word rest =
    let l = length-small word in
    ap (load (pre ++ (small word ++ rest)) (length pre)) (omega (arith, l))
    ∙ (load-slice (pre ++ (small word ++ rest)) (length pre) (length (small word))
          (omega (arith, length-append pre (small word ++ rest), length-append (small word) rest))
        ∙ ap some (slice-middle pre (small word) rest))

abbrev named : Bytes → List Bytes
named word = if is_bad word then [] else small word ∷ []

add_name-word :
    (pre word rest : Bytes)
    → add_name (pre ++ (small word ++ rest)) (length pre) (length pre + length word) (is_bad word)
      ≡ some (named word)
unfolding add_name
add_name-word pre word rest =
    if-cases (λ r. r ≡ some (named word)) (is_bad word) _ _ (λ y. rw y refl)
      (λ n. rw (load-word pre word rest, n) refl)

names_of-cons :
    (c : ℕ) (cs : Bytes) (ws : List Bytes)
    → names_of ((c ∷ cs) ∷ ws) ≡ named (c ∷ cs) ++ names_of ws
unfolding names_of
names_of-cons c cs ws = elim (Bool-cases (is_bad (c ∷ cs))) [
  | inl y ↦ rw y refl
  | inr n ↦ rw n refl
]

-- At the end of a word its name is added to those that follow.
end_name-word :
    (pre word rest b : Bytes) (ws : List Bytes) (again : ℕ → Bool → Option (Bytes × List Bytes))
    → again (length pre + length word + 1) false ≡ some (b, names_of ws)
    → end_name
        (pre ++ (small word ++ rest))
        (length pre)
        (length pre + length word)
        (is_bad word)
        again
      ≡ some (b, names_of (word ∷ ws))
unfolding names_of
end_name-word pre [] rest b ws again e =
    if-cases (λ r. r ≡ some (b, names_of ws)) (length pre == length pre + 0) _ _
      (λ _. ap (λ s. again s false) (omega arith) ∙ e) (λ n. absurd (ground arith))
end_name-word pre (c ∷ cs) rest b ws again e =
    if-cases (λ r. r ≡ some (b, names_of ((c ∷ cs) ∷ ws)))
      (length pre == length pre + suc (length cs)) _ _ (λ y. absurd (ground arith))
      (λ _.
        rw (add_name-word pre (c ∷ cs) rest, e)
          (ap (λ ns. some (b, ns)) (sym (names_of-cons c cs ws))))

read_next :
    (pre word : Bytes) (c : ℕ) (cs : Bytes)
    → read (pre ++ (small word ++ (c ∷ cs))) (length pre + length word) ≡ some c
read_next pre word c cs =
    ap (read (pre ++ (small word ++ (c ∷ cs))))
      (omega (arith, length-append pre (small word), length-small word))
    ∙ (ap (λ l. read l (length (pre ++ small word))) (sym (append_assoc pre (small word) (c ∷ cs)))
        ∙ read-middle (pre ++ small word) c cs)

store_next :
    (pre word : Bytes) (c d : ℕ) (cs : Bytes)
    → store (pre ++ (small word ++ (c ∷ cs))) (length pre + length word) (d ∷ [])
      ≡ some (pre ++ ((small word ++ (d ∷ [])) ++ cs))
store_next pre word c d cs =
    let a = pre ++ small word in
    let l : length pre + length word ≡ length a =
      omega (arith, length-append pre (small word), length-small word) in
    ap (λ b. store b (length pre + length word) (d ∷ []))
      (sym (append_assoc pre (small word) (c ∷ cs)))
    ∙ (ap (λ i. store (a ++ (c ∷ cs)) i (d ∷ [])) l
        ∙ (store-overwrite (a ++ (c ∷ cs)) (length a) (d ∷ [])
              (omega (arith, length-append a (c ∷ cs)))
            ∙ ap some (
                overwrite-middle a c d cs
                ∙ (append_assoc pre (small word) (d ∷ cs)
                    ∙ ap (λ x. pre ++ x) (sym (append_assoc (small word) (d ∷ []) cs))))))

-- A byte behind the word, as the end of what lies before.
regroup :
    (pre word : Bytes) (c : ℕ) (xs : Bytes)
    → (pre ++ (word ++ (c ∷ []))) ++ xs ≡ pre ++ (word ++ (c ∷ xs))
regroup pre word c xs =
    append_assoc pre (word ++ (c ∷ [])) xs ∙ ap (λ x. pre ++ x) (append_assoc word (c ∷ []) xs)

length-regroup :
    (pre word : Bytes) (c : ℕ)
    → length (pre ++ (small word ++ (c ∷ []))) ≡ length pre + length word + 1
length-regroup pre word c = omega (
  arith,
  length-append pre (small word ++ (c ∷ [])),
  length-append (small word) (c ∷ []),
  length-small word,
)

same_loop :
    (left : ℕ) {a a' : Bytes} {s s' e e' : ℕ} {d d' : Bool}
    → a ≡ a'
    → s ≡ s'
    → e ≡ e'
    → d ≡ d'
    → hosts_loop left a s e d ≡ hosts_loop left a' s' e' d'
same_loop left {a' = a'} {s = s} {s' = s'} {e = e} {e' = e'} {d = d} p q r u =
    ap (λ a. hosts_loop left a s e d) p
    ∙ (ap (λ s. hosts_loop left a' s e d) q
        ∙ (ap (λ e. hosts_loop left a' s' e d) r ∙ ap (hosts_loop left a' s' e') u))

ended_by :
    (pre word : Bytes) (c : ℕ) (cs : Bytes)
    → is_break c ≡ true
    → Path
        (Option (Bytes × List Bytes))
        (some (pre ++ (small word ++ lowered (c ∷ cs)), names_of (words_from word (c ∷ cs))))
        (some (pre ++ (small word ++ (c ∷ lowered cs)), names_of (word ∷ words_from [] cs)))
unfolding lowered words_from
ended_by pre word c cs y = rw y refl

gone_by :
    (pre word : Bytes) (c : ℕ) (cs : Bytes)
    → is_break c ≡ false
    → Path
        (Option (Bytes × List Bytes))
        (some (pre ++ (small word ++ lowered (c ∷ cs)), names_of (words_from word (c ∷ cs))))
        (some (
          pre ++ (small word ++ ((lower_char c).0 ∷ lowered cs)),
          names_of (words_from (word ++ (c ∷ [])) cs),
        ))
unfolding lowered words_from
gone_by pre word c cs n = rw n refl

-- The loop where `pre` and the begun word are read and the text is left.
hosts_loop-words :
    (pre word text : Bytes)
    → hosts_loop
        (length text)
        (pre ++ (small word ++ text))
        (length pre)
        (length pre + length word)
        (is_bad word)
      ≡ some (pre ++ (small word ++ lowered text), names_of (words_from word text))
unfolding hosts_loop words_from lowered names_of is_bad
hosts_loop-words pre word [] =
    end_name-word pre word [] (pre ++ (small word ++ [])) []
      (λ s drop. some (pre ++ (small word ++ []), [])) refl
hosts_loop-words pre word (c ∷ cs) = rw (read_next pre word c cs) (
    if-cases
      (λ r. r ≡ some (pre ++ (small word ++ lowered (c ∷ cs)), names_of (words_from word (c ∷ cs))))
      (is_break c) _ _
      (λ y.
        let w = small word ++ (c ∷ []) in
        let l = length-regroup pre word c in
        let at_end : length pre + length word + 1 ≡ length (pre ++ w) + 0 = omega (arith, l) in
        end_name-word pre word (c ∷ cs) (pre ++ (small word ++ (c ∷ lowered cs))) (words_from [] cs)
          (λ s drop.
            hosts_loop (length cs) (pre ++ (small word ++ (c ∷ cs))) s
              (length pre + length word + 1) drop)
          (same_loop (length cs) (sym (regroup pre (small word) c cs)) (sym l) at_end refl
            ∙ (hosts_loop-words (pre ++ w) [] cs
                ∙ ap (λ b. some (b, names_of (words_from [] cs)))
                    (regroup pre (small word) c (lowered cs))))
        ∙ sym (ended_by pre word c cs y))
      (λ n.
        let d = (lower_char c).0 in
        let w = word ++ (c ∷ []) in
        let longer : length pre + length word + 1 ≡ length pre + length w =
          omega (arith, length-append word (c ∷ [])) in
        rw (store_next pre word c d cs) (
          same_loop (length cs) (ap (λ x. pre ++ (x ++ cs)) (sym (small-snoc word c))) refl longer
            (sym (is_bad-snoc word c))
          ∙ (hosts_loop-words pre w cs
              ∙ (ap (λ x. some (pre ++ (x ++ lowered cs), names_of (words_from w cs)))
                    (small-snoc word c)
                  ∙ (ap (λ x. some (pre ++ x, names_of (words_from w cs)))
                        (append_assoc (small word) (d ∷ []) (lowered cs))
                      ∙ sym (gone_by pre word c cs n)))))))

-- parse_hosts stays in its buffer. What it adds are the words between blanks and line ends, made
-- small, in their order, but none that has a byte other than a letter, a digit, `-`, `.` or `/`;
-- the buffer is left with the words made small where they stand.
pub parse_hosts-words :
    (buffer : Bytes)
    → parse_hosts buffer (length buffer) ≡ some (lowered buffer, names_of (words buffer))
unfolding parse_hosts is_bad
parse_hosts-words buffer = hosts_loop-words [] [] buffer
