-- ===== src/Sa/ToyCodec.antt =====
-- A toy encoding of the JSON columns, for the examples: every text is written after its length. It forgets
-- the authorities of a record.
use boulder.Prelude.Text.{Text}
use boulder.Prelude.{ℕ, zero, suc, ◌≡◌, refl, ap, Option, none, some, List, [], ◌∷◌, ◌++◌, length}
use boulder.Errors.{Result, ok, err, plain_error, ◌>>=◌}
use boulder.Core.Types.{ProblemDetails, ValidationRecord}
use boulder.Sa.Model.{Codec}

-- A value and the rest of the text.
abbrev Reader : Type 0 → Type 0
Reader A = Text → Result (A × Text)

abbrev push : ℕ → Text × Text → Text × Text
push c (t, rest) = (c ∷ t, rest)

abbrev get_bytes : ℕ → Text → Result (Text × Text)
get_bytes zero s = ok ([], s)
get_bytes (suc n) [] = err (plain_error "short")
get_bytes (suc n) (c ∷ s) = get_bytes n s >>= λ (t, rest). ok (c ∷ t, rest)

abbrev get_text : Reader Text
get_text [] = err (plain_error "short")
get_text (n ∷ s) = get_bytes n s

abbrev put_text : Text → Text → Text
put_text t rest = length t ∷ t ++ rest

get-put_text : (t rest : Text) → get_text (put_text t rest) ≡ ok (t, rest)
get-put_text [] rest = refl
get-put_text (c ∷ t) rest = ap (λ r. r >>= λ (u, rest'). ok (c ∷ u, rest')) (get-put_text t rest)

abbrev put_texts : List Text → Text → Text
put_texts [] rest = rest
put_texts (t ∷ ts) rest = put_text t (put_texts ts rest)

abbrev get_texts : ℕ → Reader (List Text)
get_texts zero s = ok ([], s)
get_texts (suc n) s = get_text s >>= λ (t, r). get_texts n r >>= λ (ts, r'). ok (t ∷ ts, r')

abbrev put_option : Option Text → Text → Text
put_option none rest = 0 ∷ rest
put_option (some t) rest = 1 ∷ put_text t rest

abbrev get_option : Reader (Option Text)
get_option [] = err (plain_error "short")
get_option (zero ∷ s) = ok (none, s)
get_option (suc n ∷ s) = get_text s >>= λ (t, r). ok (some t, r)

abbrev put_record : ValidationRecord → Text → Text
put_record v rest = put_text v.url (
    put_text v.hostname (
      put_text v.port (
        length v.addresses_resolved
        ∷ put_texts v.addresses_resolved (put_option v.address_used rest))))

abbrev get_list : Reader (List Text)
get_list [] = err (plain_error "short")
get_list (n ∷ s) = get_texts n s

abbrev get_record : Reader ValidationRecord
get_record s = get_text s >>= λ (a, s1). get_text s1 >>= λ (b, s2). get_text s2 >>= λ (c, s3).
    get_list s3 >>= λ (d, s4). get_option s4 >>= λ (e, s5). ok (
      record {
        authorities = [];
        url = a;
        hostname = b;
        port = c;
        addresses_resolved = d;
        address_used = e;
      },
      s5,
    )

abbrev put_many : List ValidationRecord → Text
put_many [] = []
put_many (v ∷ vs) = put_record v (put_many vs)

abbrev get_many : ℕ → Text → Result (List ValidationRecord)
get_many zero s = ok []
get_many (suc n) s = get_record s >>= λ (v, r). get_many n r >>= λ vs. ok (v ∷ vs)

abbrev get_records : Text → Result (List ValidationRecord)
get_records [] = err (plain_error "short")
get_records (n ∷ s) = get_many n s

abbrev put_problem : ProblemDetails → Text
put_problem p = p.http_status ∷ put_text p.problem_type (put_text p.detail [])

abbrev get_problem : Text → Result ProblemDetails
get_problem [] = err (plain_error "short")
get_problem (n ∷ s) = get_text s >>= λ (t, r).
    get_text r >>= λ (d, r'). ok (record { problem_type = t; detail = d; http_status = n })

pub get-put_problem : (p : ProblemDetails) → get_problem (put_problem p) ≡ ok p
get-put_problem p =
    rw (get-put_text p.problem_type (put_text p.detail []), get-put_text p.detail []) refl

abbrev pub toy_codec : Codec
toy_codec = record {
  write_problem = put_problem;
  read_problem = get_problem;
  write_records = λ vs. length vs ∷ put_many vs;
  read_records = get_records;
}
