-- ===== src/Ra/AuthzTests.antt =====
-- ra/ra.go: NewAuthorization at a concrete input: no valid authorization for the name is there yet.
use boulder.Prelude.Text.{codes, text_Eq, text_eq, split, join, last_is, to_lower, lower_byte}
use boulder.Prelude.Int.{pos, int_eq, ◌+ℤ◌}
use boulder.Prelude.{ℕ, ◌≡◌, refl, true, none, some, [], ◌∷◌, elem, all, ◌⊎◌}
use boulder.Errors.{ok}
use boulder.Features.{start}
use boulder.Features
use boulder.Ratelimit
use boulder.Ratelimit.{get_threshold, lookup}
use boulder.Core.Types.{
  AcmeIdentifier, dns, Authorization, Challenge, ChallengeType, http_01, tls_sni_01, dns_01,
  pending,
}
use boulder.Core.Objects.{
  new_challenge, is_sane_for_client_offer, is_sane, looks_like_a_token, is_token_byte,
}
use boulder.Policy.Defs.{
  willing_to_issue, is_dns_character, is_ip_address, is_octet, check_labels, check_label,
  dns_label_matches, is_label_start, is_label_byte, punycode_matches, check_suffix,
  extract_domain_iana_suffix, check_host_lists, blacklisted_suffix, challenges_for, offered, pick,
}
use boulder.Sa.ToyCodec.{toy_codec}
use boulder.Sa.Model.{
  challenge_to_model, error_column, record_column, model_to_challenge, read_error_column,
  read_record_column,
}
use boulder.Sa.Db.{no_faults, transaction, has_id, existing, insert}
use boulder.Sa.Authz.{new_id, insert_each, new_pending_authorization}
use boulder.Sa.Queries.{
  is_usable, select_authzs, by_name, put_name, is_better, add_row, latest_by_name,
  get_valid_authorizations,
}
use boulder.Ra.Limits.{check_pending_authorization_limit}
use boulder.Ra.NewAuthz.{
  AuthzServices, Draws, check_new_authorization, check_invalid_authorization_limit, find_reusable,
  create_authorization, new_authorization, lowered,
}
use boulder.Sa.Invariant.{IsConsistent}
use boulder.Ra.NewAuthzLaws.{Reused, Created, new_authorization-ok}
use boulder.Ra.Tests.{cfg, db, token}
use boulder.Ra.IssueTests.{names, pa, counts}

abbrev services : AuthzServices
services = record {
  counts = counts;
  using_grpc = true;
  count_invalid = λ id n b e. ok (some (pos 1));
  is_safe_domain = λ n. ok true;
}

abbrev draws : Draws
draws = record {
  new_token = λ kind. token;
  perm = 0 ∷ 1 ∷ 2 ∷ [];
  combo_perm = 0 ∷ 1 ∷ 2 ∷ [];
  tokens = codes "p" ∷ codes "n" ∷ [];
}

abbrev requested : AcmeIdentifier
requested = record { kind = dns; value = codes "B.org" }

abbrev numbered : ℕ → ChallengeType → Challenge
numbered id kind = record {
  id = id;
  kind = kind;
  status = pending;
  error = none;
  token = token;
  uri = [];
  provided_key_authorization = [];
  validation_record = [];
}

abbrev made : Authorization
made = record {
  id = codes "n";
  identifier = record { kind = dns; value = codes "b.org" };
  registration_id = pos 1;
  status = pending;
  expires = some (pos 110);
  challenges = numbered 5 http_01 ∷ numbered 6 tls_sni_01 ∷ numbered 7 dns_01 ∷ [];
  combinations = (0 ∷ []) ∷ (1 ∷ []) ∷ (2 ∷ []) ∷ [];
}

created :
    (new_authorization toy_codec no_faults no_faults draws none db cfg services names pa start
      (pos 10)
      requested
      (pos 1)).0
    ≡ ok made
unfolding new_authorization check_new_authorization check_invalid_authorization_limit find_reusable
    create_authorization check_pending_authorization_limit Ratelimit.enabled Features.enabled
    get_threshold lookup to_lower lower_byte willing_to_issue is_dns_character is_ip_address
    is_octet split last_is check_labels check_label dns_label_matches is_label_start is_label_byte
    punycode_matches check_suffix extract_domain_iana_suffix check_host_lists blacklisted_suffix
    join elem all text_eq get_valid_authorizations latest_by_name add_row select_authzs is_usable
    by_name put_name is_better challenges_for offered pick new_challenge new_pending_authorization
    transaction new_id existing has_id insert insert_each challenge_to_model error_column
    record_column model_to_challenge read_error_column read_record_column is_sane_for_client_offer
    is_sane looks_like_a_token is_token_byte ◌+ℤ◌
created = refl

consistent : IsConsistent db
unfolding text_eq has_id
consistent = record { pending_unique = (refl, tt); final_unique = (refl, tt); apart = (refl, tt) }

new_authorization-ok_example :
    let called =
      new_authorization toy_codec no_faults no_faults draws none db cfg services names pa start
        (pos 10)
        requested
        (pos 1) in
    (check_new_authorization cfg services names pa start (pos 10) (lowered requested) (pos 1)
      ≡ ok tt)
    × (willing_to_issue names pa start (lowered requested) ≡ none)
    × (((cfg.reuse_valid_authz ≡ true)
          × Reused toy_codec db (pos 10) (lowered requested).value (pos 1) made
          × (called.1 ≡ db))
        ⊎ Created db called.1
            (lowered requested)
            (pos 1)
            (pos 10 +ℤ cfg.pending_authorization_lifetime)
            made)
new_authorization-ok_example =
    new_authorization-ok toy_codec no_faults no_faults draws none db cfg services names pa start
      (pos 10) requested (pos 1) made consistent created
