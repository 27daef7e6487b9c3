-- ===== src/Verifier/Manifest/Digest.antt =====
-- The digest file that write_manifest writes is read back.
use fixrepro.Base.{
  ℕ, zero, suc, ◌≡◌, refl, ap, String, Bool, true, false, not, ◌==◌, nat_eq, list_eq, ltb, all,
  length, some, List, [], ◌∷◌, ◌++◌, codes, arith,
}
use fixrepro.Base.Text.{is_sha256, is_hex}
use fixrepro.Verifier.BundleVerifier.{universal_newlines, digest_group, read_digest}

abbrev pub digest_line : List ℕ
digest_line = codes "  manifest.json" ++ (10 ∷ [])

-- `read_text` keeps a text without carriage returns.
universal_newlines_same :
    (cs : List ℕ) → all (λ c. not (c == 13)) cs ≡ true → universal_newlines cs ≡ cs
unfolding universal_newlines
universal_newlines_same [] h = refl
universal_newlines_same (c ∷ []) h = let other : (c == 13) ≡ false = ground arith in rw other refl
universal_newlines_same (c ∷ d ∷ rest) h =
    let other : (c == 13) ≡ false = ground arith in
    let later : all (λ x. not (x == 13)) (d ∷ rest) ≡ true = ground arith in
    rw other (ap (λ l. c ∷ l) (universal_newlines_same (d ∷ rest) later))

digest_group_reads :
    (n : ℕ) (cs : List ℕ)
    → length cs ≡ n
    → all is_hex cs ≡ true
    → digest_group n (cs ++ digest_line) ≡ some cs
unfolding digest_group
digest_group_reads zero [] size h = refl
digest_group_reads zero (c ∷ cs) size h = absurd (omega (arith, size))
digest_group_reads (suc n) [] size h = absurd (omega (arith, size))
digest_group_reads (suc n) (c ∷ cs) size h =
    let hex : is_hex c ≡ true = ground arith in
    let later : all is_hex cs ≡ true = ground arith in
    rw (hex, digest_group_reads n cs (omega (arith, size)) later, digest_group) refl

-- What the digits and the fixed text have in common.
plain_text :
    (test : ℕ → Bool) (cs : List ℕ)
    → ((c : ℕ) → is_hex c ≡ true → test c ≡ true)
    → all is_hex cs ≡ true
    → all test digest_line ≡ true
    → all test (cs ++ digest_line) ≡ true
plain_text test [] each h rest = rest
plain_text test (c ∷ cs) each h rest =
    let here : test c ≡ true = each c (ground arith) in
    let later : all test (cs ++ digest_line) ≡ true = plain_text test cs each (ground arith) rest in
    ground arith

hex_ascii : (c : ℕ) → is_hex c ≡ true → ltb c 128 ≡ true
unfolding is_hex
hex_ascii c h = ground arith

hex_no_return : (c : ℕ) → is_hex c ≡ true → not (c == 13) ≡ true
unfolding is_hex
hex_no_return c h = ground arith

-- A digest of the right form is read back from its file, without a failure.
pub read_digest_written :
    (digest : String)
    → is_sha256 digest ≡ true
    → read_digest (some (codes digest ++ digest_line)) ≡ ([], some (codes digest))
unfolding read_digest is_sha256
read_digest_written digest h =
    let size : length (codes digest) ≡ 64 = ground arith in
    let hex : all is_hex (codes digest) ≡ true = ground arith in
    let ascii = plain_text (λ c. ltb c 128) (codes digest) hex_ascii hex refl in
    let same =
      universal_newlines_same (codes digest ++ digest_line)
        (plain_text (λ c. not (c == 13)) (codes digest) hex_no_return hex refl) in
    rw (ascii, same, digest_group_reads 64 (codes digest) size hex, read_digest) refl
