-- ===== src/Quality/Tests.antt =====
-- A pair of quotes that passes, and one that does not.
use auto_options_call_debit.Common.{◌≡◌, refl, none, some}
use auto_options_call_debit.Common.Outcome.{domain_error, err, ok}
use auto_options_call_debit.Domain.Tests.{quote}
use auto_options_call_debit.Quality.{allowed_flags, validate_quote, validate_pair}

passes : validate_pair (some 300) (some 60) (quote 1 250 260) (quote 2 110 120) 100 ≡ ok tt
unfolding validate_pair validate_quote allowed_flags
passes = refl

-- Five minutes and a microsecond later the snapshot is too old.
stale :
    validate_pair (some 300) none (quote 1 250 260) (quote 2 110 120) 300000061
    ≡ err (domain_error "STALE_SNAPSHOT")
unfolding validate_pair validate_quote allowed_flags
stale = refl
