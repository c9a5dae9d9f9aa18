-- ===== src/Security/RateLimit/Global.antt =====
-- `check_global` of `src/security/rate_limiter.hpp`: the bucket that all threads share, in
-- thousandths of a token. `check_global` here is the call of one thread that is alone; a `Move` is
-- one atomic operation of a thread among others.
pub mod Bounded
use asio_owen.Prelude.{
  ℕ, ◌+◌, ◌-◌, ◌*◌, ◌≤◌, ◌<◌, Bool, true, false, if◌then◌else◌, ◌≡◌, ◌≢◌, ℤ, pos, negsuc, sub_ℕ,
  ◌+ℤ◌, ◌-ℤ◌, ◌≤ℤ◌, ltb_ℤ, pos_part, neg_part, not, ltb,
}
use asio_owen.Security.Chain.{Decision}
use asio_owen.Security.RateLimit.{Doubles, allowed_now, zero_real}

pub record GlobalBucket : Type 0 where
  pub tokens_milli : ℤ
  pub last_refill_ms : ℕ

-- `std::min`.
unfoldable pub min_ℤ : ℤ → ℤ → ℤ
min_ℤ a b = if ltb_ℤ b a then b else a

module _ (d : Doubles) where
  open d use {Real, of_int, le, mul, div, ceil_int, trunc}

  unfoldable pub refill_global : GlobalBucket → Real → Real → ℕ → GlobalBucket
  unfolding min_ℤ ◌+ℤ◌
  refill_global g rate burst now =
      if ltb g.last_refill_ms now
      then record {
        tokens_milli =
            min_ℤ (trunc (mul burst (of_int (pos 1000))))
              (g.tokens_milli +ℤ trunc (mul (of_int (sub_ℕ now g.last_refill_ms)) rate));
        last_refill_ms = now;
      }
      else g

  -- The subtraction, its refund where there was less than a token, and the answer.
  unfoldable pub spend_global : GlobalBucket → Real → Decision × GlobalBucket
  unfolding ◌-ℤ◌ ◌+ℤ◌
  spend_global g rate =
      if not (ltb_ℤ g.tokens_milli (pos 1000))
      then (allowed_now, record g { tokens_milli = g.tokens_milli -ℤ pos 1000 })
      else (
        record { allowed = false; retry_after_ms = ceil_int (div (of_int (pos 1000)) rate) },
        record g { tokens_milli = g.tokens_milli -ℤ pos 1000 +ℤ pos 1000 },
      )

  unfoldable pub check_global : GlobalBucket → Real → Real → ℕ → Decision × GlobalBucket
  unfolding refill_global spend_global
  check_global g rate burst now =
      if le rate (zero_real d)
      then (allowed_now, g)
      else spend_global (refill_global g rate burst now) rate

pub data Place : Type 0 where
  -- Outside the call.
  outside : Place
  -- With the time that was asked for, and the last refill as it was loaded.
  loaded : ℕ → ℕ → Place
  -- With an amount to add that is the thread's own now.
  refilling : ℕ → Place
  -- In the loop, with the tokens as they were last seen.
  adding : ℕ → ℤ → Place
  spending : Place
  -- The request is refused, and the token not given back yet.
  refunding : Place

-- The bucket, with what an observer counts: the requests that were allowed, the amounts that were
-- claimed for refills, and what the threads still have to add.
pub record Observed : Type 0 where
  pub bucket : GlobalBucket
  pub allowed : ℕ
  pub granted : ℕ
  pub owed : ℕ

abbrev pub with_tokens : ℤ → Observed → Observed
with_tokens n s = record s { bucket = record s.bucket { tokens_milli = n } }

-- `amount e` is what `e` milliseconds add at the rate that is set, `burst_milli` the most that a
-- refill leaves in the bucket.
module _ (amount : ℕ → ℕ) (burst_milli : ℕ) where
  pub data Move (s : Observed) : Place → Observed → Place → Type 0 where
    load : {now : ℕ} → Move s outside s (loaded now s.bucket.last_refill_ms)
    no_time : {now last : ℕ} → now ≤ last → Move s (loaded now last) s spending
    beaten :
        {now last : ℕ}
        → last < now
        → s.bucket.last_refill_ms ≢ last
        → Move s (loaded now last) s spending
    claimed :
        {now last : ℕ}
        → last < now
        → s.bucket.last_refill_ms ≡ last
        → Move s
            (loaded now last)
            (record s {
              bucket = record s.bucket { last_refill_ms = now };
              granted = s.granted + amount (now - last);
              owed = s.owed + amount (now - last);
            })
            (refilling (amount (now - last)))
    load_tokens : {add : ℕ} → Move s (refilling add) s (adding add s.bucket.tokens_milli)
    missed : {add : ℕ} {old : ℤ} → Move s (adding add old) s (adding add s.bucket.tokens_milli)
    refilled :
        {add : ℕ} {old : ℤ}
        → s.bucket.tokens_milli ≡ old
        → Move s
            (adding add old)
            (record (with_tokens (min_ℤ (pos burst_milli) (old +ℤ pos add)) s) {
              owed = s.owed - add;
            })
            spending
    allow :
        pos 1000 ≤ℤ s.bucket.tokens_milli
        → Move s spending
            (record (with_tokens (s.bucket.tokens_milli -ℤ pos 1000) s) { allowed = s.allowed + 1 })
            outside
    deny :
        ¬ (pos 1000 ≤ℤ s.bucket.tokens_milli)
        → Move s spending
            (record (with_tokens (s.bucket.tokens_milli -ℤ pos 1000) s) { owed = s.owed + 1000 })
            refunding
    refund :
        Move s refunding
          (record (with_tokens (s.bucket.tokens_milli +ℤ pos 1000) s) { owed = s.owed - 1000 })
          outside

-- What a thread still has to add.
abbrev pub owes : Place → ℕ
owes (refilling add) = add
owes (adding add old) = add
owes refunding = 1000
owes _ = 0
