-- ===== src/Streams/Window.antt =====
-- What a sequence of reads gives.
use gar_virt.Prelude.{
  ltb, leb, if◌then◌else◌, Bytes, length, take, drop, ℕ, zero, suc, ◌+◌, ◌-◌, ◌≤◌, ◌<◌, ◌≡◌, refl,
  sym, ap, ◌∙◌, Bool, true, false, none, some, List, [], ◌∷◌, ◌++◌, append-nil, arith,
}
use gar_virt.Streams.StdInput.{
  StdInputStream, pos_diff, read_up_to, read_available, read_within, read, read_all,
}

pub take_nil : (n : ℕ) → take {A = ℕ} n [] ≡ []
take_nil zero = refl
take_nil (suc n) = refl

pub take_all : (n : ℕ) (s : Bytes) → length s ≤ n → take n s ≡ s
take_all zero [] h = refl
take_all zero (c ∷ s) h = absurd (omega arith)
take_all (suc n) [] h = refl
take_all (suc n) (c ∷ s) h = ap (λ t. c ∷ t) (take_all n s (omega arith))

pub length-take : (n : ℕ) (s : Bytes) → n ≤ length s → length (take n s) ≡ n
length-take zero s h = refl
length-take (suc n) [] h = absurd (omega arith)
length-take (suc n) (c ∷ s) h = ap suc (length-take n s (omega arith))

length-take_below : (n : ℕ) (s : Bytes) → length (take n s) ≤ n
length-take_below zero s = omega arith
length-take_below (suc n) [] = omega arith
length-take_below (suc n) (c ∷ s) = omega (arith, length-take_below n s)

pub drop-drop : (n m : ℕ) (s : Bytes) → drop (n + m) s ≡ drop m (drop n s)
drop-drop zero m s = let same_end : zero + m ≡ m = omega arith in ap (λ k. drop k s) same_end
drop-drop (suc n) zero [] =
    let same_end : suc n + 0 ≡ suc n = omega arith in ap (λ k. drop k []) same_end
drop-drop (suc n) (suc m) [] =
    let same_end : suc n + suc m ≡ suc (n + suc m) = omega arith in ap (λ k. drop k []) same_end
drop-drop (suc n) m (c ∷ s) =
    let same_end : suc n + m ≡ suc (n + m) = omega arith in
    ap (λ k. drop k (c ∷ s)) same_end ∙ drop-drop n m s

-- The first bytes of a window, and the rest of it.
pub take-window :
    (c t a : ℕ) (s : Bytes)
    → c ≤ a
    → take (c + t) (take a s) ≡ take c s ++ take t (take (a - c) (drop c s))
take-window zero t a s h =
    let same_start : zero + t ≡ t = omega arith in
    let same_end : a ≡ a - 0 = omega arith in
    ap (λ k. take k (take a s)) same_start ∙ ap (λ b. take t (take b s)) same_end
take-window (suc c) t zero s h = absurd (omega arith)
take-window (suc c) t (suc a) [] h =
    take_nil (suc c + t) ∙ sym (take_nil t) ∙ ap (take t) (sym (take_nil (suc a - suc c)))
take-window (suc c) t (suc a) (x ∷ s) h =
    let same_start : suc c + t ≡ suc (c + t) = omega arith in
    let same_end : a - c ≡ suc a - suc c = omega arith in
    ap (λ k. take k (x ∷ take a s)) same_start
    ∙ ap (λ l. x ∷ l)
        (take-window c t a s (omega arith)
          ∙ ap (λ b. take c s ++ take t (take b (drop c s))) same_end)

abbrev pub sum : List ℕ → ℕ
sum [] = 0
sum (n ∷ counts) = n + sum counts

module _ (content : Bytes) (start size_ : ℕ) where
  -- With the flags, at a position of the content.
  abbrev pub with_flags : Bool → Bool → ℕ → StdInputStream
  with_flags eofbit failbit position = record {
    stream = record {
      content = content;
      position = position;
      seekable = true;
      eofbit = eofbit;
      failbit = failbit;
    };
    size = some size_;
    initial_position = some start;
  }

  ended-nothing :
      (counts : List ℕ) (position : ℕ) → read_all counts (with_flags true true position) ≡ []
  unfolding read_all read
  ended-nothing [] position = refl
  ended-nothing (c ∷ counts) position = ended-nothing counts position

  at_end-nothing :
      (counts : List ℕ) (position : ℕ) (failbit : Bool)
      → read_all counts (with_flags true failbit position) ≡ []
  unfolding read_all read
  at_end-nothing [] position failbit = refl
  at_end-nothing (c ∷ counts) position failbit = ended-nothing counts position

  abbrev rest : ℕ → Bytes
  rest k = drop (start + k) content

  -- What the reads behind a first one give together with it.
  abbrev all_of : List ℕ → Bytes × StdInputStream → Bytes
  all_of counts r = r.0 ++ read_all counts r.1

  -- Reading `n` of the `a` bytes that are left of the window.
  up_to-all :
      (n a k : ℕ) (counts : List ℕ)
      → n ≤ a
      → (n < a
          → read_all counts (with_flags false false (start + k + n))
            ≡ take (sum counts) (take (a - n) (drop n (rest k))))
      → all_of counts (read_up_to n a (with_flags false false (start + k)))
        ≡ take (n + sum counts) (take a (rest k))
  up_to-all n a k counts inside next = go (ltb (length (rest k)) n) (leb a (length got)) refl refl
    where
      got : Bytes
      got = take n (rest k)

      all_taken : length (rest k) ≤ n → got ++ [] ≡ take (n + sum counts) (take a (rest k))
      all_taken few =
          append-nil got
          ∙ take_all n (rest k) few
          ∙ sym (take_all (n + sum counts) (rest k) (omega arith))
          ∙ ap (take (n + sum counts)) (sym (take_all a (rest k) (omega arith)))

      go :
          (short full : Bool)
          → ltb (length (rest k)) n ≡ short
          → leb a (length got) ≡ full
          → got
              ++ read_all counts
                  (with_flags (if full then true else short) short (start + k + length got))
            ≡ take (n + sum counts) (take a (rest k))
      go true true h h' =
          ap (λ l. got ++ l) (ended-nothing counts (start + k + length got))
          ∙ all_taken (ground arith)
      go true false h h' =
          ap (λ l. got ++ l) (ended-nothing counts (start + k + length got))
          ∙ all_taken (ground arith)
      go false true h h' =
          let many = length-take n (rest k) (ground arith) in
          let none_left : a - n ≡ 0 = ground arith in
          ap (λ l. got ++ l)
            (at_end-nothing counts (start + k + length got) false
              ∙ sym (take_nil (sum counts))
              ∙ ap (λ b. take (sum counts) (take b (drop n (rest k)))) (sym none_left))
          ∙ sym (take-window n (sum counts) a (rest k) inside)
      go false false h h' =
          let many = length-take n (rest k) (ground arith) in
          ap (λ l. got ++ read_all counts (with_flags false false (start + k + l))) many
          ∙ ap (λ l. got ++ l) (next (ground arith))
          ∙ sym (take-window n (sum counts) a (rest k) inside)

  -- Reads from each place in the window give what is left of it, as much as they ask for.
  abbrev pub Windowed : List ℕ → Type 0
  Windowed counts =
      (k : ℕ)
      → k ≤ size_
      → read_all counts (with_flags false false (start + k))
        ≡ take (sum counts) (take (size_ - k) (rest k))

  pub read_all-Windowed : (counts : List ℕ) → Windowed counts
  unfolding read_all read
  read_all-Windowed [] k inside = refl
  read_all-Windowed (c ∷ counts) k inside =
      ap (λ d. all_of counts (read_within c size_ d (with_flags false false (start + k)))) passed
      ∙ go (read_all-Windowed counts) (leb size_ k) refl
    where
      passed : pos_diff (some (start + k)) (some start) ≡ some k
      passed =
          let behind : ltb (start + k) start ≡ false = ground arith in
          let distance : start + k - start ≡ k = omega arith in
          ap (λ b. if b then none else some (start + k - start)) behind ∙ ap some distance

      -- The rest of the reads, behind `c` bytes more.
      further :
          Windowed counts
          → c < size_ - k
          → read_all counts (with_flags false false (start + k + c))
            ≡ take (sum counts) (take (size_ - k - c) (drop c (rest k)))
      further again more =
          let same_place : start + k + c ≡ start + (k + c) = omega arith in
          let same_window : size_ - (k + c) ≡ size_ - k - c = omega arith in
          ap (λ p. read_all counts (with_flags false false p)) same_place
          ∙ again (k + c) (omega arith)
          ∙ ap (λ b. take (sum counts) (take b (rest (k + c)))) same_window
          ∙ ap (λ p. take (sum counts) (take (size_ - k - c) (drop p content))) (sym same_place)
          ∙ ap (λ l. take (sum counts) (take (size_ - k - c) l)) (drop-drop (start + k) c content)

      available :
          Windowed counts
          → (cut : Bool) → ltb (size_ - k) c ≡ cut
          → all_of counts (
              read_up_to
                (if cut then size_ - k else c)
                (size_ - k)
                (with_flags false false (start + k)))
            ≡ take (c + sum counts) (take (size_ - k) (rest k))
      available again true h =
          let short = length-take_below (size_ - k) (rest k) in
          up_to-all (size_ - k) (size_ - k) k counts (omega arith) (λ less. absurd (omega arith))
          ∙ take_all (size_ - k + sum counts) (take (size_ - k) (rest k)) (omega arith)
          ∙ sym (take_all (c + sum counts) (take (size_ - k) (rest k)) (ground arith))
      available again false h = up_to-all c (size_ - k) k counts (ground arith) (further again)

      go :
          Windowed counts
          → (over : Bool) → leb size_ k ≡ over
          → all_of counts (
              if over
              then ([], with_flags true false (start + k))
              else read_available c (size_ - k) (with_flags false false (start + k)))
            ≡ take (c + sum counts) (take (size_ - k) (rest k))
      go again true h =
          let none_left : size_ - k ≡ 0 = ground arith in
          at_end-nothing counts (start + k) false
          ∙ sym (take_nil (c + sum counts))
          ∙ ap (λ b. take (c + sum counts) (take b (rest k))) (sym none_left)
      go again false h = available again (ltb (size_ - k) c) refl
