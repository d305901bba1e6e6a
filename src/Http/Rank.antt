-- ===== src/Http/Rank.antt =====
-- deployables/backend/internal/httpapi/rerank.go: the order of the hits. Scores come in a type that
-- the development takes as a parameter, with Go's `>`.
use aime.Base.{
  ℕ, zero, suc, ◌-◌, Option, none, some, ap, ◌∙◌, ◌<◌, ◌≤◌, ◌≡◌, refl, inl, inr, ◌⊎◌, Bool, true,
  false, ◌&&◌, ltb, Bool-cases, arith, List, [], ◌∷◌, if◌then◌else◌,
}
use aime.Base.Lists.{length, All}

pub record Hit (S : Type 0) : Type 0 where
  pub index : ℕ
  pub score : S

-- `hits[:n]`
abbrev pub take : {A : Type 0} → ℕ → List A → List A
take n [] = []
take zero (x ∷ xs) = []
take (suc n) (x ∷ xs) = x ∷ take n xs

module _ {S : Type 0} (gt : S → S → Bool) where
  abbrev pub insert_hit : Hit S → List (Hit S) → List (Hit S)
  insert_hit h [] = h ∷ []
  insert_hit h (x ∷ xs) =
      let rest = insert_hit h xs in if gt x.score h.score then x ∷ rest else h ∷ x ∷ xs

  -- `sort.SliceStable` with `hits[a].Score > hits[b].Score`.
  abbrev pub sort_hits : List (Hit S) → List (Hit S)
  sort_hits [] = []
  sort_hits (h ∷ hs) = insert_hit h (sort_hits hs)

  abbrev pub number_from : ℕ → List S → List (Hit S)
  number_from i [] = []
  number_from i (s ∷ ss) = record { index = i; score = s } ∷ number_from (suc i) ss

  -- The hits of a request: best first, cut to `top_k` where it is positive and below their number.
  unfoldable pub rank : ℕ → List S → List (Hit S)
  rank top_k scores =
      let hits = sort_hits (number_from 0 scores) in
      if ltb 0 top_k && ltb top_k (length hits) then take top_k hits else hits

  -- A hit stands before another that scores less, or that scores the same and came later.
  abbrev pub Before : Hit S → Hit S → Type 0
  Before a b = (gt b.score a.score ≡ false) × ((gt a.score b.score ≡ true) ⊎ (a.index < b.index))

  abbrev pub IsRanked : List (Hit S) → Type 0
  IsRanked [] = Unit
  IsRanked (h ∷ hs) = All (Before h) hs × IsRanked hs

  -- What holds of `>` between scores without a NaN.
  pub record IsOrder : Type 0 where
    pub asymmetric : (a b : S) → gt a b ≡ true → gt b a ≡ false
    pub cotransitive : (a b c : S) → gt a c ≡ true → (gt a b ≡ true) ⊎ (gt b c ≡ true)

  -- All later than an index.
  abbrev Later : ℕ → List (Hit S) → Type 0
  Later i hs = All (λ h. i ≤ h.index) hs

  Later-insert :
      (i : ℕ) (h : Hit S) (hs : List (Hit S)) → i ≤ h.index → Later i hs → Later i (insert_hit h hs)
  Later-insert i h [] p l = (p, tt)
  Later-insert i h (x ∷ xs) p (q, l) = elim (Bool-cases (gt x.score h.score)) [
    | inl e ↦ rw e (q, Later-insert i h xs p l)
    | inr e ↦ rw e (p, (q, l))
  ]

  Later-weaken : (i j : ℕ) (hs : List (Hit S)) → i ≤ j → Later j hs → Later i hs
  Later-weaken i j [] p l = tt
  Later-weaken i j (x ∷ xs) p (q, l) = (omega arith, Later-weaken i j xs p l)

  Later-sort : (i : ℕ) (ss : List S) → Later i (sort_hits (number_from i ss))
  Later-sort i [] = tt
  Later-sort i (s ∷ ss) =
      Later-insert i _ _ (omega arith)
        (Later-weaken i (suc i) _ (omega arith) (Later-sort (suc i) ss))

  length-insert_hit : (h : Hit S) (hs : List (Hit S)) → length (insert_hit h hs) ≡ suc (length hs)
  length-insert_hit h [] = refl
  length-insert_hit h (x ∷ xs) = ground (arith, length-insert_hit h xs)

  length-sort_hits : (i : ℕ) (ss : List S) → length (sort_hits (number_from i ss)) ≡ length ss
  length-sort_hits i [] = refl
  length-sort_hits i (s ∷ ss) = rw (
    length-insert_hit (record { index = i; score = s }) (sort_hits (number_from (suc i) ss)),
    length-sort_hits (suc i) ss,
  )

  All-insert :
      (P : Hit S → Type 0) (h : Hit S) (hs : List (Hit S))
      → P h
      → All P hs
      → All P (insert_hit h hs)
  All-insert P h [] p l = (p, tt)
  All-insert P h (x ∷ xs) p (q, l) = elim (Bool-cases (gt x.score h.score)) [
    | inl e ↦ rw e (q, All-insert P h xs p l)
    | inr e ↦ rw e (p, (q, l))
  ]

  module _ (order : IsOrder) where
    -- A hit that came before all of a ranked list, and that the list's first does not beat.
    stays_first :
        (h x : Hit S) (xs : List (Hit S))
        → gt x.score h.score ≡ false
        → Later (suc h.index) xs
        → All (Before x) xs
        → All (Before h) xs
    stays_first h x [] e l b = tt
    stays_first h x (y ∷ ys) e (m, l) ((c, d), b) = (
      (
        elim (Bool-cases (gt y.score h.score)) [
          | inl beats ↦ elim (order.cotransitive y.score x.score h.score beats) [
            | inl f ↦ absurd (ground arith)
            | inr f ↦ absurd (ground arith)
          ]
          | inr not_beats ↦ not_beats
        ],
        inr m,
      ),
      stays_first h x ys e l b,
    )

    insert_hit-IsRanked :
        (h : Hit S) (hs : List (Hit S))
        → Later (suc h.index) hs
        → IsRanked hs
        → IsRanked (insert_hit h hs)
    insert_hit-IsRanked h [] l r = (tt, tt)
    insert_hit-IsRanked h (x ∷ xs) (m, l) (b, r) = elim (Bool-cases (gt x.score h.score)) [
      | inl e ↦ rw e (
        All-insert (Before x) h xs (order.asymmetric x.score h.score e, inl e) b,
        insert_hit-IsRanked h xs l r,
      )
      | inr e ↦ rw e (((e, inr m), stays_first h x xs e l b), (b, r))
    ]

    sort_hits-IsRanked : (i : ℕ) (ss : List S) → IsRanked (sort_hits (number_from i ss))
    sort_hits-IsRanked i [] = tt
    sort_hits-IsRanked i (s ∷ ss) =
        insert_hit-IsRanked _ _ (Later-sort (suc i) ss) (sort_hits-IsRanked (suc i) ss)

  abbrev pub get_elem? : List S → ℕ → Option S
  get_elem? [] i = none
  get_elem? (s ∷ ss) zero = some s
  get_elem? (s ∷ ss) (suc i) = get_elem? ss i

  -- A hit carries the score at its index.
  abbrev pub IsScored : List S → Hit S → Type 0
  IsScored ss h = get_elem? ss h.index ≡ some h.score

  abbrev ScoredFrom : ℕ → List S → Hit S → Type 0
  ScoredFrom i ss h = (i ≤ h.index) × (get_elem? ss (h.index - i) ≡ some h.score)

  ScoredFrom-later :
      (i : ℕ) (s : S) (ss : List S) (h : Hit S) → ScoredFrom (suc i) ss h → ScoredFrom i (s ∷ ss) h
  ScoredFrom-later i s ss h (p, e) = (omega arith, ap (get_elem? (s ∷ ss)) (step h.index i p) ∙ e)
    where
      step : (a b : ℕ) → suc b ≤ a → a - b ≡ suc (a - suc b)
      step a b p = omega arith

  All-weaken :
      (P Q : Hit S → Type 0) (hs : List (Hit S)) → ((h : Hit S) → P h → Q h) → All P hs → All Q hs
  All-weaken P Q [] f l = tt
  All-weaken P Q (x ∷ xs) f (p, l) = (f x p, All-weaken P Q xs f l)

  sort_hits-Scored : (i : ℕ) (ss : List S) → All (ScoredFrom i ss) (sort_hits (number_from i ss))
  sort_hits-Scored i [] = tt
  sort_hits-Scored i (s ∷ ss) =
      All-insert (ScoredFrom i (s ∷ ss)) _ _ (omega arith, ap (get_elem? (s ∷ ss)) (none_less i))
        (All-weaken _ _ _ (ScoredFrom-later i s ss) (sort_hits-Scored (suc i) ss))
    where
      none_less : (n : ℕ) → n - n ≡ 0
      none_less n = omega arith

  -- With scores that `>` orders, the hits of a rerank call are the first of a list that has one hit
  -- for each document, with the document's score, each strictly before all that follow: by a better
  -- score, or by an earlier place in the request at an equal one. All of that list is returned if
  -- `top_k` is 0 or not below the number of documents, `top_k` hits otherwise.
  pub rank-IsRanked :
      (order : IsOrder) (top_k : ℕ) (scores : List S)
      → (hits : List (Hit S)) × IsRanked hits
        × (length hits ≡ length scores)
        × All (IsScored scores) hits
        × (rank top_k scores
            ≡ (if ltb 0 top_k && ltb top_k (length scores) then take top_k hits else hits))
  unfolding rank
  rank-IsRanked order top_k scores = (
    hits,
    sort_hits-IsRanked order 0 scores,
    length-sort_hits 0 scores,
    All-weaken (ScoredFrom 0 scores) (IsScored scores) hits
        (λ h (_, e). ap (get_elem? scores) (less_zero h.index) ∙ e) (sort_hits-Scored 0 scores),
    ap (λ n. if ltb 0 top_k && ltb top_k n then take top_k hits else hits)
        (length-sort_hits 0 scores),
  )
    where
      less_zero : (n : ℕ) → n ≡ n - 0
      less_zero n = omega arith

      hits : List (Hit S)
      hits = sort_hits (number_from 0 scores)
