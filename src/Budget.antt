-- ===== src/Budget.antt =====
-- Model prices and the budget for calls (llm/budget.py). A rate is a number of millionths of a dollar
-- per million tokens, so that a cost is a whole number of 10^-12 dollars.
pub mod Cover
mod Tests
use auto_options_call_debit.Common.Action.{Action}
use auto_options_call_debit.Common.{
  ◌*◌, ℤ, pos, negsuc, ltb_ℤ, leb_ℤ, ◌+ℤ◌, ◌-ℤ◌, ℕ, ◌+◌, ◌-◌, String, Bool, false, not, ◌||◌,
  Option, none, some, str_eq, ltb, if◌then◌else◌,
}
use auto_options_call_debit.Common.Outcome.{
  ◌>>=◌, ◌>>◌, raise_if, Error, Result, model_error, err, ok,
}
use auto_options_call_debit.Domain.Money.{Decimal, finite, special}

-- The arguments of `PriceSheet(...)`.
pub record SheetArgs : Type 0 where
  pub model_id : String
  pub input_per_million : Decimal
  pub output_per_million : Decimal
  pub cached_input_per_million : Option Decimal
  pub input_overhead_tokens : ℤ
  pub model_context_limit : Option ℤ

pub record PriceSheet : Type 0 where
  pub model_id : String
  pub input_per_million : ℕ
  pub output_per_million : ℕ
  pub cached_input_per_million : Option ℕ
  pub model_context_limit : Option ℤ

abbrev invalid_sheet : Error
invalid_sheet = model_error "INVALID_PRICE_SHEET"

rate_of : Decimal → Result ℕ
rate_of (finite (pos n)) = ok n
rate_of (finite (negsuc n)) = err invalid_sheet
rate_of special = err invalid_sheet

optional_rate : Option Decimal → Result (Option ℕ)
unfolding rate_of
optional_rate none = ok none
optional_rate (some d) = rate_of d >>= λ n. ok (some n)

-- `PriceSheet.__post_init__`
unfoldable pub make_sheet : SheetArgs → Result PriceSheet
unfolding rate_of optional_rate
make_sheet a = do
  input ← rate_of a.input_per_million
  output ← rate_of a.output_per_million
  cached ← optional_rate a.cached_input_per_million
  raise_if (str_eq a.model_id "" || ltb_ℤ a.input_overhead_tokens (pos 0)) invalid_sheet
  ok (record {
    model_id = a.model_id;
    input_per_million = input;
    output_per_million = output;
    cached_input_per_million = cached;
    model_context_limit = a.model_context_limit;
  })

unfoldable pub cached_rate : Option ℕ → ℕ → ℕ
cached_rate none input = input
cached_rate (some rate) input = rate

unfoldable pub amount : PriceSheet → ℕ → ℕ → ℕ → ℕ
unfolding cached_rate
amount s input output cached =
    (input - cached) * s.input_per_million
    + cached * cached_rate s.cached_input_per_million s.input_per_million
    + output * s.output_per_million

-- `PriceSheet.cost`
unfoldable pub cost : PriceSheet → ℤ → ℤ → ℤ → Result ℕ
unfolding amount
cost s (pos input) (pos output) (pos cached) =
    if ltb input cached
    then err (model_error "INVALID_USAGE")
    else ok (amount s input output cached)
cost s _ _ _ = err (model_error "INVALID_USAGE")

-- The request, with the length of its canonical body.
pub record Request : Type 0 where
  pub model_id : String
  pub max_output_tokens : ℤ
  pub body_length : ℕ

abbrev require_limit : Option ℤ → Result ℤ
require_limit none = err (model_error "MISSING_MODEL_CONTEXT_LIMIT")
require_limit (some limit) =
    if leb_ℤ limit (pos 0) then err (model_error "MISSING_MODEL_CONTEXT_LIMIT") else ok limit

-- `cached_at_higher_rate`, for a context limit
unfoldable pub higher_cached : Option ℕ → ℕ → ℤ → ℤ
higher_cached none input limit = pos 0
higher_cached (some rate) input limit = if ltb input rate then limit else pos 0

-- `PriceSheet.bound`
unfoldable pub bound : PriceSheet → Request → Result ℕ
unfolding cost higher_cached
bound s r = do
  raise_if (not (str_eq r.model_id s.model_id)) (model_error "PRICE_MODEL_MISMATCH")
  raise_if (leb_ℤ r.max_output_tokens (pos 0)) (model_error "INVALID_OUTPUT_LIMIT")
  limit ← require_limit s.model_context_limit
  raise_if
      (ltb_ℤ limit r.max_output_tokens || ltb_ℤ limit (pos r.body_length +ℤ r.max_output_tokens))
      (model_error "REQUEST_CONTEXT_LIMIT")
  cost s limit r.max_output_tokens
      (higher_cached s.cached_input_per_million s.input_per_million limit)

-- The amounts of `Budget`.
pub record Budget : Type 0 where
  pub cap : ℤ
  pub committed : ℤ
  pub reserved : ℤ
  pub overrun : Bool

-- `Budget.__init__`
unfoldable pub make_budget : Decimal → Result Budget
make_budget special = err (model_error "INVALID_BUDGET")
make_budget (finite (negsuc n)) = err (model_error "INVALID_BUDGET")
make_budget (finite (pos n)) =
    ok (record { cap = pos (n * 1000000); committed = pos 0; reserved = pos 0; overrun = false })

-- `Budget.reserve_amount`
unfoldable pub reserve_amount : ℤ → Action Budget ℤ
reserve_amount est b =
    if b.overrun || ltb_ℤ b.cap (b.committed +ℤ b.reserved +ℤ est)
    then (err (model_error "BUDGET_EXCEEDED"), b)
    else (ok est, record b { reserved = b.reserved +ℤ est })

-- `Budget.commit`
unfoldable pub commit : ℤ → ℤ → Budget → Budget
commit reservation actual b =
    let reserved = b.reserved -ℤ reservation in
    let committed = b.committed +ℤ actual in
    record {
      cap = b.cap;
      committed = committed;
      reserved = reserved;
      overrun = ltb_ℤ b.cap (committed +ℤ reserved);
    }

-- `Budget.abort`
unfoldable pub abort : ℤ → Budget → Budget
abort reservation b = record b { reserved = b.reserved -ℤ reservation }
