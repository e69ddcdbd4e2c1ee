-- ===== src/Sa/IssuedNames.antt =====
-- sa/sa.go: CountCertificatesByNames. The table issuedNames holds the reversed names of certificates.
-- How MySQL compares texts is a parameter. Select has no ErrNoRows: it gives an empty list.
use boulder.Prelude.Text.{Text, text_Eq}
use boulder.Prelude.Int.{ℤ, ltb_ℤ}
use boulder.Prelude.{
  ℕ, suc, ◌+◌, Bool, not, ◌&&◌, ◌||◌, Option, none, some, List, [], ◌∷◌, ◌++◌, ◌==◌, if◌then◌else◌,
  ltb, length, take,
}
use boulder.Errors.{Error, plain_error, Result, ok, err, ◌>>=◌}
use boulder.Core.Names.{add_key}
use boulder.Sa.ReverseName.{reverse_name}

pub record IssuedName : Type 0 where
  pub reversed_name : Text
  pub serial : Text
  pub not_before : ℤ

-- The comparisons of MySQL on the column: `text = text`, and `text LIKE pattern` with the pattern first.
pub record Collation : Type 0 where
  pub same : Text → Text → Bool
  pub like : Text → Text → Bool

-- The first two conditions of the query, on a stored name.
unfoldable pub is_under : Collation → Text → Text → Bool
is_under coll reversed_domain name =
    coll.same name reversed_domain || coll.like (reversed_domain ++ b'.' ∷ b'%' ∷ []) name

unfoldable pub select_serials : Collation → Text → ℤ → ℤ → List IssuedName → List Text
select_serials coll reversed_domain earliest latest [] = []
select_serials coll reversed_domain earliest latest (r ∷ rows) =
    let rest = select_serials coll reversed_domain earliest latest rows in
    if is_under coll reversed_domain r.reversed_name
      && ltb_ℤ earliest r.not_before
      && not (ltb_ℤ latest r.not_before)
    then r.serial ∷ rest
    else rest

-- The keys of serialMap.
unfoldable pub serial_map : List Text → List Text → List Text
unfolding add_key
serial_map keys [] = keys
serial_map keys (s ∷ serials) = serial_map (add_key s keys) serials

abbrev pub max_count : ℕ
max_count = 10_000

unfoldable pub too_many_certificates : Error
too_many_certificates = plain_error "More than %d issuedName entries for %s."

-- `count` is never set, as in the source.
unfoldable pub count_certificates_by_name :
    Collation → Option Error → List IssuedName → Text → ℤ → ℤ → Result ℕ
count_certificates_by_name coll (some e) rows domain earliest latest = err e
count_certificates_by_name coll none rows domain earliest latest =
    let count : ℕ = 0 in
    let serials =
      take (max_count + 1) (select_serials coll (reverse_name domain) earliest latest rows) in
    if ltb max_count count then err too_many_certificates else ok (length (serial_map [] serials))

-- ret[domain] = currentCount
unfoldable pub put_count : Text → ℕ → List (Text × ℕ) → List (Text × ℕ)
put_count d n [] = (d, n) ∷ []
put_count d n ((k, m) ∷ ret) = if k == d then (d, n) ∷ ret else (k, m) ∷ put_count d n ret

unfoldable pub count_of : Text → List (Text × ℕ) → Option ℕ
count_of d [] = none
count_of d ((k, m) ∷ ret) = if k == d then some m else count_of d ret

-- The failures are those of the query for each domain.
unfoldable pub count_certificates_by_names :
    Collation
    → (ℕ → Option Error)
    → List IssuedName
    → List Text
    → ℤ
    → ℤ
    → List (Text × ℕ)
    → Result (List (Text × ℕ))
count_certificates_by_names coll fault rows [] earliest latest ret = ok ret
count_certificates_by_names coll fault rows (d ∷ domains) earliest latest ret =
    count_certificates_by_name coll (fault 0) rows d earliest latest >>= λ current_count.
    count_certificates_by_names coll (λ n. fault (suc n)) rows domains earliest latest
      (put_count d current_count ret)
