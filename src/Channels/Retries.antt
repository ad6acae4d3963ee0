-- ===== src/Channels/Retries.antt =====
-- What the loop of pkg/channels/manager.go that sends with retries has done when it ends.
use mathlib.Core.List.{append_assoc, append-nil}
use operator_os.Base.{
  ℕ, zero, suc, ◌+◌, ◌*◌, ◌^◌, ◌≤◌, ◌≡◌, refl, sym, ap, ◌∙◌, max, Bool, true, false, Option, none,
  some, List, [], ◌∷◌, ◌++◌, length, Bool-cases, Option-cases, inl, inr, arith,
}
use operator_os.Channels.Sends.{
  SendError, is_permanent, retry_delay, rate_limit_delay, max_retries, Delivery, sent, gave_up,
  context_done, Log, empty_log, with_result, with_wait, send_attempts, base_backoff,
}

-- What the sends and the waits do from a world on, with so many retries left at an attempt: their
-- results, the waits, the end, and the world that is left. Only a failure that is not permanent and a
-- wait that ended before the context did are followed by another send.
pub data IsHistory {ℓ} {W : Type ℓ} (send : W → Option SendError × W) (wait : ℕ → W → Bool × W)
    : ℕ → ℕ → W → List (Option SendError) → List ℕ → Delivery → W → Type ℓ where
  succeeds :
      {left attempt : ℕ} {w w1 : W}
      → send w ≡ (none, w1)
      → IsHistory send wait left attempt w (none ∷ []) [] sent w1
  exhausts :
      {attempt : ℕ} {w w1 : W} (e : SendError)
      → send w ≡ (some e, w1)
      → IsHistory send wait zero attempt w (some e ∷ []) [] (gave_up e) w1
  refuses :
      {left attempt : ℕ} {w w1 : W} (e : SendError)
      → send w ≡ (some e, w1)
      → is_permanent e ≡ true
      → IsHistory send wait (suc left) attempt w (some e ∷ []) [] (gave_up e) w1
  ends :
      {left attempt : ℕ} {w w1 w2 : W} (e : SendError)
      → send w ≡ (some e, w1)
      → is_permanent e ≡ false
      → wait (retry_delay e attempt) w1 ≡ (true, w2)
      → IsHistory send wait
          (suc left)
          attempt
          w
          (some e ∷ [])
          (retry_delay e attempt ∷ [])
          context_done
          w2
  retries :
      {left attempt : ℕ} {w w1 w2 w3 : W} {rs : List (Option SendError)} {ws : List ℕ}
      {d : Delivery} (e : SendError)
      → send w ≡ (some e, w1)
      → is_permanent e ≡ false
      → wait (retry_delay e attempt) w1 ≡ (false, w2)
      → IsHistory send wait left (suc attempt) w2 rs ws d w3
      → IsHistory send wait (suc left) attempt w (some e ∷ rs) (retry_delay e attempt ∷ ws) d w3

abbrev pub sum : List ℕ → ℕ
sum [] = 0
sum (x ∷ xs) = x + sum xs

module _ {ℓ} {W : Type ℓ} (send : W → Option SendError × W) (wait : ℕ → W → Bool × W) where
  -- The log is the old one and then a history.
  abbrev Extends : ℕ → ℕ → Log → W → Delivery × Log × W → Type ℓ
  Extends left attempt log w (d, log', w') =
      (rs : List (Option SendError)) × (ws : List ℕ) × (log'.results ≡ log.results ++ rs)
      × (log'.waits ≡ log.waits ++ ws)
      × IsHistory send wait left attempt w rs ws d w'

  pair {κ} : {A : Type κ} {a : A} (p : A × W) → p.0 ≡ a → p ≡ (a, p.1)
  pair p e = ap (λ x. (x, p.1)) e

  send_attempts-Extends :
      (left attempt : ℕ) (log : Log) (w : W)
      → Extends left attempt log w (send_attempts send wait left attempt log w)
  unfolding send_attempts
  send_attempts-Extends zero attempt log w = elim (Option-cases (send w).0) [
    | inl f ↦
        rw (f, send_attempts)
          (none ∷ [], [], refl, sym (append-nil log.waits), succeeds (pair (send w) f))
    | inr (e, f) ↦
        rw (f, send_attempts)
          (some e ∷ [], [], refl, sym (append-nil log.waits), exhausts e (pair (send w) f))
  ]
  send_attempts-Extends (suc left) attempt log w = elim (Option-cases (send w).0) [
    | inl f ↦
        rw (f, send_attempts)
          (none ∷ [], [], refl, sym (append-nil log.waits), succeeds (pair (send w) f))
    | inr (e, f) ↦
        let s = pair (send w) f in
        elim (Bool-cases (is_permanent e)) [
          | inl p ↦
              rw (f, send_attempts)
                (rw p (some e ∷ [], [], refl, sym (append-nil log.waits), refuses e s p))
          | inr p ↦
              let n = retry_delay e attempt in
              let t = wait n (send w).1 in
              elim (Bool-cases t.0) [
                | inl o ↦
                    rw (f, send_attempts)
                      (rw p (rw o (some e ∷ [], n ∷ [], refl, refl, ends e s p (pair t o))))
                | inr o ↦
                    let (rs, ws, p1, p2, h) =
                      send_attempts-Extends left (suc attempt)
                        (with_wait n (with_result (some e) log)) t.1 in
                    rw (f, send_attempts)
                      (rw p (
                        rw o (
                          some e ∷ rs,
                          n ∷ ws,
                          p1 ∙ append_assoc log.results (some e ∷ []) rs,
                          p2 ∙ append_assoc log.waits (n ∷ []) ws,
                          retries e s p (pair t o) h,
                        )))
              ]
        ]
  ]

-- The longest waits that so many retries from an attempt on can add up to.
abbrev longest_waits : ℕ → ℕ → ℕ
longest_waits zero attempt = 0
longest_waits (suc left) attempt =
    max rate_limit_delay (base_backoff * 2 ^ attempt) + longest_waits left (suc attempt)

retry_delay_le :
    (e : SendError) (a : ℕ) → retry_delay e a ≤ max rate_limit_delay (base_backoff * 2 ^ a)
unfolding retry_delay
retry_delay_le e a = ground arith

IsHistory-bounds {ℓ} :
    {W : Type ℓ} {send : W → Option SendError × W} {wait : ℕ → W → Bool × W} {left attempt : ℕ}
    {w w' : W} {rs : List (Option SendError)} {ws : List ℕ} {d : Delivery}
    → IsHistory send wait left attempt w rs ws d w'
    → (length rs ≤ suc left) × (sum ws ≤ longest_waits left attempt)
IsHistory-bounds (succeeds s) = omega arith
IsHistory-bounds (exhausts e s) = omega arith
IsHistory-bounds (refuses e s p) = omega arith
IsHistory-bounds (ends {left = left} {attempt = a} e s p t) = omega (arith, retry_delay_le e a)
IsHistory-bounds (retries {left = left} {attempt = a} e s p t h) =
    let (n, b) = IsHistory-bounds h in omega (arith, retry_delay_le e a)

-- Whatever the channel and the clock do, a message is sent at most four times, with at most four
-- seconds of waiting in all. A send follows only a failure that is not permanent and a wait that the
-- context survived; a wait that it did not survive is the last thing that happens; the end is `sent`
-- exactly when the last send succeeded, and a failure is given up exactly when it is permanent or no
-- retry is left.
pub send_attempts-IsHistory {ℓ} :
    {W : Type ℓ} (send : W → Option SendError × W) (wait : ℕ → W → Bool × W) (w : W)
    → IsHistory send wait max_retries 0 w
        (send_attempts send wait max_retries 0 empty_log w).1.results
        (send_attempts send wait max_retries 0 empty_log w).1.waits
        (send_attempts send wait max_retries 0 empty_log w).0
        (send_attempts send wait max_retries 0 empty_log w).2
      × (length (send_attempts send wait max_retries 0 empty_log w).1.results ≤ 4)
      × (sum (send_attempts send wait max_retries 0 empty_log w).1.waits ≤ 4000)
send_attempts-IsHistory send wait w =
    let (rs, ws, p, q, h) = send_attempts-Extends send wait max_retries 0 empty_log w in
    let (n, s) = IsHistory-bounds h in rw p (rw q (h, n, s))
