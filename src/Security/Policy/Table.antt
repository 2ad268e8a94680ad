-- ===== src/Security/Policy/Table.antt =====
-- The SecurityPolicies and their URIs: the table of security_policy.c as a bijection.
use micro_opcua.Base.{
  ℕ, ◌≡◌, ◌≢◌, refl, ap, sym, ◌&&◌, inl, inr, Bool-cases, ◌==◌, ==_iff, take, [], ◌∷◌, Bool, true,
  false, some, List, length, arith,
}
use micro_opcua.Security.Policy.{
  invalid_id, find_row, policy_row, policy_table, uri_equals, same_bytes, find_uri, policy_from_uri,
  policy_uri, none_uri, basic256sha256_uri, aes128_sha256_rsaoaep_uri, aes256_sha256_rsapss_uri,
}

same_bytes-eq : (xs ys : List ℕ) → same_bytes xs ys ≡ true → xs ≡ ys
same_bytes-eq [] [] h = refl
same_bytes-eq [] (y ∷ ys) h = absurd (ground arith)
same_bytes-eq (x ∷ xs) [] h = absurd (ground arith)
same_bytes-eq (x ∷ xs) (y ∷ ys) h =
    let (first, others) = both (x == y) (same_bytes xs ys) h in
    rw ((==_iff x y).0 first, same_bytes-eq xs ys others)
  where
    both : (a b : Bool) → (a && b) ≡ true → (a ≡ true) × (b ≡ true)
    both a b h = ground arith

uri_equals-eq :
    (uri : List ℕ) (n : ℕ) (expected : List ℕ)
    → uri_equals uri n expected ≡ true
    → take n uri ≡ expected
uri_equals-eq uri n expected h =
    same_bytes-eq (take n uri) expected (right (n == length expected) _ h)
  where
    right : (a b : Bool) → (a && b) ≡ true → b ≡ true
    right a b h = ground arith

uri_of_match :
    (uri : List ℕ) (n : ℕ) (expected : List ℕ)
    → uri_equals uri n expected ≡ true
    → some expected ≡ some (take n uri)
uri_of_match uri n expected h = ap some (sym (uri_equals-eq uri n expected h))

-- A URI of at least one byte that names a policy is the URI of this policy, byte for byte.
pub policy_uri-policy_from_uri :
    (uri : List ℕ) (n : ℕ)
    → n ≢ 0
    → policy_from_uri (some uri) n ≢ invalid_id
    → policy_uri (policy_from_uri (some uri) n) ≡ some (take n uri)
unfolding policy_from_uri policy_uri find_uri policy_row find_row
policy_uri-policy_from_uri uri n h valid = rw nonempty at_first
  where
    nonempty : (n == 0) ≡ false
    nonempty = ground arith

    at_first : policy_uri (find_uri uri n policy_table) ≡ some (take n uri)
    at_first = elim (Bool-cases (uri_equals uri n none_uri)) [
      | inl e ↦ rw e (uri_of_match uri n none_uri e)
      | inr e ↦ rw e (elim (Bool-cases (uri_equals uri n basic256sha256_uri)) [
        | inl f ↦ rw f (uri_of_match uri n basic256sha256_uri f)
        | inr f ↦ rw f (elim (Bool-cases (uri_equals uri n aes128_sha256_rsaoaep_uri)) [
          | inl g ↦ rw g (uri_of_match uri n aes128_sha256_rsaoaep_uri g)
          | inr g ↦ rw g (elim (Bool-cases (uri_equals uri n aes256_sha256_rsapss_uri)) [
            | inl k ↦ rw k (uri_of_match uri n aes256_sha256_rsapss_uri k)
            | inr k ↦ absurd (valid (rw (nonempty, e, f, g, k)))
          ])
        ])
      ])
    ]
