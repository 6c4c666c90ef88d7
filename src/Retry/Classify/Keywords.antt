-- ===== src/Retry/Classify/Keywords.antt =====
-- The keyword test of internal/retry/policy.go, and what the order of the tests makes of it.
use compute_agent.Base.{
  ℕ, String, ◌≡◌, ◌≢◌, refl, sym, ◌∙◌, Bool, true, some, List, [], ◌∷◌, ◌++◌, codes, map,
  lower_codes, to_lower, has_prefix, has_infix, any, arith, Bool-cases, inl, inr,
}
use mathlib.Core.List.{append_assoc}
use compute_agent.Retry.Reason.{dns_resolution}
use compute_agent.Retry.Classify.{
  contains, contains_from, some_keyword, pad, is_network_error, classify_error,
}

has_prefix-append : (s t u : List ℕ) → has_prefix s t ≡ true → has_prefix (s ++ u) t ≡ true
unfolding has_prefix
has_prefix-append s [] u h = ground arith
has_prefix-append [] (c ∷ t) u h = cc
has_prefix-append (d ∷ s) (c ∷ t) u h = ground (arith, has_prefix-append s t u)

has_infix-append : (s t u : List ℕ) → has_infix s t ≡ true → has_infix (s ++ u) t ≡ true
unfolding has_infix
has_infix-append [] [] [] h = refl
has_infix-append [] [] (x ∷ u) h = refl
has_infix-append [] (c ∷ t) u h = cc
has_infix-append (d ∷ s) t u h =
    ground (arith, has_infix-append s t u, has_prefix-append (d ∷ s) t u)

has_infix-cons : (c : ℕ) (s t : List ℕ) → has_infix s t ≡ true → has_infix (c ∷ s) t ≡ true
unfolding has_infix
has_infix-cons c s t h = ground arith

has_prefix_trans :
    (s t u : List ℕ) → has_prefix s t ≡ true → has_prefix t u ≡ true → has_prefix s u ≡ true
unfolding has_prefix
has_prefix_trans s t [] h k = ground arith
has_prefix_trans s [] (e ∷ u) h k = cc
has_prefix_trans [] (c ∷ t) (e ∷ u) h k = cc
has_prefix_trans (d ∷ s) (c ∷ t) (e ∷ u) h k = ground (arith, has_prefix_trans s t u)

has_infix-nil : (s : List ℕ) → has_infix s [] ≡ true
unfolding has_infix
has_infix-nil [] = refl
has_infix-nil (d ∷ s) = refl

has_infix_of_prefix :
    (s t u : List ℕ) → has_prefix s t ≡ true → has_infix t u ≡ true → has_infix s u ≡ true
unfolding has_infix
has_infix_of_prefix s [] [] h k = has_infix-nil s
has_infix_of_prefix s [] (e ∷ u) h k = cc
has_infix_of_prefix [] (c ∷ t) u h k = cc
has_infix_of_prefix (d ∷ s) (c ∷ t) u h k =
    ground (arith, has_infix_of_prefix s t u, has_prefix_trans (d ∷ s) (c ∷ t) u)

-- What is inside a part of a text is inside the text.
pub has_infix_trans :
    (s t u : List ℕ) → has_infix s t ≡ true → has_infix t u ≡ true → has_infix s u ≡ true
unfolding has_infix
has_infix_trans [] t u h k = has_infix_of_prefix [] t u h k
has_infix_trans (d ∷ s) t u h k =
    ground (arith, has_infix_trans s t u, has_infix_of_prefix (d ∷ s) t u)

to_lower_idem : (c : ℕ) → to_lower (to_lower c) ≡ to_lower c
unfolding to_lower
to_lower_idem c = ground arith

map-to_lower_idem : (s : List ℕ) → map to_lower (map to_lower s) ≡ map to_lower s
map-to_lower_idem [] = refl
map-to_lower_idem (c ∷ s) = cc (to_lower_idem c, map-to_lower_idem s)

lower_codes_lowered : (msg : String) → map to_lower (lower_codes msg) ≡ lower_codes msg
unfolding lower_codes
lower_codes_lowered msg = map-to_lower_idem (codes msg)

map-append-space : (s : List ℕ) → map to_lower (s ++ b' ' ∷ []) ≡ map to_lower s ++ b' ' ∷ []
unfolding to_lower
map-append-space [] = refl
map-append-space (c ∷ s) = cc (map-append-space s)

has_infix-pad :
    (s t : List ℕ) → map to_lower s ≡ s → has_infix s t ≡ true → has_infix (pad s) t ≡ true
unfolding pad
has_infix-pad s t low h =
    has_infix-cons (to_lower b' ') (map to_lower (s ++ b' ' ∷ [])) t
      (rw (map-append-space s, low) (has_infix-append s t (b' ' ∷ []) h))

pad_lowered : (s : List ℕ) → map to_lower (pad s) ≡ pad s
unfolding pad
pad_lowered s = map-to_lower_idem (b' ' ∷ (s ++ b' ' ∷ []))

some_keyword-append :
    (str : List ℕ) (before after : List String) (k : String)
    → has_infix str (lower_codes k) ≡ true
    → some_keyword str (before ++ k ∷ after) ≡ true
unfolding some_keyword
some_keyword-append str [] after k h = ground arith
some_keyword-append str (j ∷ before) after k h =
    ground (arith, some_keyword-append str before after k)

abbrev pub mentions : String → String → Bool
mentions msg keyword = has_infix (lower_codes msg) (lower_codes keyword)

contains_from-any :
    (every : List String) (str : List ℕ) (before ks : List String)
    → every ≡ before ++ ks
    → map to_lower str ≡ str
    → contains_from every str ks ≡ any (λ k. has_infix str (lower_codes k)) ks
unfolding contains_from
contains_from-any every str before [] e low = refl
contains_from-any every str before (k ∷ ks) e low =
    elim (Bool-cases (has_infix str (lower_codes k))) [
      | inl hit ↦
          let padded =
            some_keyword-append (pad str) before ks k (has_infix-pad str (lower_codes k) low hit) in
          rw (e, hit, padded)
      | inr miss ↦ rw (miss) (
          contains_from-any every str (before ++ k ∷ []) ks
            (e ∙ sym (append_assoc before (k ∷ []) ks)) low)
    ]

-- The test that pads the text and starts over says whether some keyword is in the text, cases of
-- letters aside.
pub contains-any : (msg : String) (ks : List String) → contains msg ks ≡ any (mentions msg) ks
unfolding contains
contains-any msg ks = contains_from-any ks (lower_codes msg) [] ks refl (lower_codes_lowered msg)

-- The keyword "host" stands in "no such host".
no_such_host-is_network_error :
    (msg : String) → mentions msg "no such host" ≡ true → is_network_error msg ≡ true
unfolding is_network_error
no_such_host-is_network_error msg h = rw contains-any (
    ground (
      arith,
      has_infix_trans (lower_codes msg) (lower_codes "no such host") (lower_codes "host") h
          (unfold lower_codes has_infix in refl),
    ))

-- A message that names a missing host is never classified as a DNS failure.
pub no_such_host-ne-dns_resolution :
    (msg : String) → mentions msg "no such host" ≡ true → classify_error (some msg) ≢ dns_resolution
unfolding classify_error
no_such_host-ne-dns_resolution msg h = ground (arith, no_such_host-is_network_error msg h)
