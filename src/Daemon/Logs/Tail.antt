-- ===== src/Daemon/Logs/Tail.antt =====
-- What `serveLog` serves of a file that does not change.
use sshcustom_vpnchain.Base.{
  ℕ, zero, suc, ◌-◌, ◌≤◌, ◌<◌, ◌≡◌, refl, sym, ap, inl, inr, true, false, some, List, [], ◌∷◌,
  arith, ltb, Bool-cases, length, take, drop, is_empty, Bytes,
}
use sshcustom_vpnchain.Base.{length-drop}
use sshcustom_vpnchain.Daemon.Logs.{
  LogFile, log_text, max_log_read, read_tail, read_log, found_log, serve_log,
}
use sshcustom_vpnchain.Daemon.Logs.{read_whole}

take-short {ℓ} : {A : Type ℓ} (n : ℕ) (xs : List A) → length xs ≤ n → take n xs ≡ xs
take-short zero [] h = refl
take-short zero (x ∷ xs) h = absurd (omega arith)
take-short (suc n) [] h = refl
take-short (suc n) (x ∷ xs) h = ap (◌∷◌ x) (take-short n xs (omega arith))

drop-none {ℓ} : {A : Type ℓ} (n : ℕ) (xs : List A) → n ≡ 0 → drop n xs ≡ xs
drop-none zero xs h = refl
drop-none (suc n) xs h = absurd (omega arith)

is_empty-length : (xs : Bytes) → 0 < length xs → is_empty xs ≡ false
is_empty-length [] h = absurd (omega arith)
is_empty-length (x ∷ xs) h = refl

tail-read :
    (content : Bytes)
    → max_log_read < length content
    → read_tail (length content - max_log_read) (some content)
      ≡ log_text (drop (length content - max_log_read) content)
unfolding read_tail
tail-read content h =
    let rest = drop (length content - max_log_read) content in
    let size : length rest ≡ max_log_read =
      omega (arith, length-drop (length content - max_log_read) content) in
    let filled : is_empty rest ≡ false = is_empty-length rest (omega arith) in
    let whole : ltb (length rest) max_log_read ≡ false = ground arith in
    rw (filled, whole) (ap log_text (take-short max_log_read rest (omega arith)))

-- Of a log that does not change while it is read, `serveLog` serves the end, byte for byte: all of
-- a log of at most 64 KiB, and otherwise the last 64 KiB; so never more than that.
pub serve_log_tail :
    (f : LogFile) (content : Bytes)
    → f.stat_size ≡ some (length content)
    → f.content ≡ some content
    → f.opens ≡ true
    → f.seeks ≡ true
    → (serve_log f ≡ log_text (drop (length content - max_log_read) content))
      × (length (drop (length content - max_log_read) content) ≤ max_log_read)
unfolding serve_log found_log read_log read_whole
serve_log_tail f content size text opens seeks =
    let short : length (drop (length content - max_log_read) content) ≤ max_log_read =
      omega (arith, length-drop (length content - max_log_read) content) in
    elim (Bool-cases (ltb max_log_read (length content))) [
      | inl long ↦ (rw (size, text, opens, seeks, long) (tail-read content (ground arith)), short)
      | inr fits ↦ (
        rw (size, text, opens, fits)
            (ap log_text (sym (drop-none (length content - max_log_read) content (ground arith)))),
        short,
      )
    ]
