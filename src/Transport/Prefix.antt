-- ===== src/Transport/Prefix.antt =====
-- cmd/sshcustomd/main.go: `prefixConn`, the connection that SSH reads from: first what was read ahead,
-- then the connection itself. That is any implementation of `Reader`.
use sshcustom_vpnchain.Base.{
  ℕ, zero, suc, ◌≤◌, ◌≡◌, refl, ap, ◌∙◌, Bool, false, [], ◌∷◌, ◌++◌, append_assoc, arith,
  if◌then◌else◌, length, take, drop, length-take, is_empty, Bytes,
}
use sshcustom_vpnchain.Base.{append_assoc, sym, List}

-- What is relied on of a connection that is read: a read of at most `n` bytes gives as many or fewer of
-- those to come, in order. An error may come with it.
pub record Reader (S : Type 0) : Type 0 where
  pub read : ℕ → S → Bytes × Bool × S
  pub to_come : S → Bytes
  pub read-within : (n : ℕ) (s : S) → length (read n s).0 ≤ n
  pub read-to_come : (n : ℕ) (s : S) → to_come s ≡ (read n s).0 ++ to_come (read n s).2

-- The rest of what was read ahead, and the connection.
pub record PrefixConn (S : Type 0) : Type 0 where
  pub prefix : Bytes
  pub conn : S

pub take-drop-append : (n : ℕ) (xs : Bytes) → xs ≡ take n xs ++ drop n xs
take-drop-append zero xs = refl
take-drop-append (suc n) [] = refl
take-drop-append (suc n) (x ∷ xs) = ap (◌∷◌ x) (take-drop-append n xs)

module _ {S : Type 0} (r : Reader S) where
  open r use {read, to_come, read-within, read-to_come}

  from_conn : PrefixConn S → Bytes × Bool × S → Bytes × Bool × PrefixConn S
  from_conn c (bs, failed, s) = (bs, failed, record c { conn = s })

  -- `prefixConn.Read` into a buffer of `n` bytes.
  unfoldable pub prefix_read : ℕ → PrefixConn S → Bytes × Bool × PrefixConn S
  unfolding from_conn
  prefix_read n c =
      if is_empty c.prefix
      then from_conn c (read n c.conn)
      else (take n c.prefix, false, record c { prefix = drop n c.prefix })

  abbrev pub stream_of : PrefixConn S → Bytes
  stream_of c = c.prefix ++ to_come c.conn

  abbrev Continues : ℕ → PrefixConn S → Bytes × Bool × PrefixConn S → Type 0
  Continues n c out = (stream_of c ≡ out.0 ++ stream_of out.2) × (length out.0 ≤ n)

  prefix_read-Continues :
      (n : ℕ) (ahead : Bytes) (s : S)
      → let c : PrefixConn S = record { prefix = ahead; conn = s } in
        Continues n c (prefix_read n c)
  unfolding prefix_read
  prefix_read-Continues n [] s = (read-to_come n s, read-within n s)
  prefix_read-Continues n (b ∷ ahead) s =
      let whole = b ∷ ahead in
      (
        ap (λ t. t ++ to_come s) (take-drop-append n whole)
            ∙ append_assoc (take n whole) (drop n whole) (to_come s),
        omega (arith, length-take n whole),
      )

  -- Reads into buffers of the given sizes, errors passed over: what they give, and the connection.
  unfoldable pub prefix_reads : List ℕ → PrefixConn S → Bytes × PrefixConn S
  unfolding prefix_read
  prefix_reads [] c = ([], c)
  prefix_reads (n ∷ ns) c =
      let (bs, failed, next) = prefix_read n c in
      let (more, last) = prefix_reads ns next in (bs ++ more, last)

  -- The reader of a `prefixConn` sees one stream: the bytes read ahead and then those of the
  -- connection. Whatever the sizes of the buffers that it reads into, what the reads give, with what
  -- is still to come behind them, is that stream, so nothing is lost, doubled or out of order; and no
  -- read gives more than fits its buffer.
  pub prefix_reads-stream_of :
      (ns : List ℕ) (c : PrefixConn S)
      → (stream_of c ≡ (prefix_reads ns c).0 ++ stream_of (prefix_reads ns c).1)
        × ((n : ℕ) (d : PrefixConn S) → length (prefix_read n d).0 ≤ n)
  unfolding prefix_reads
  prefix_reads-stream_of [] c = (refl, λ n d. (prefix_read-Continues n d.prefix d.conn).1)
  prefix_reads-stream_of (n ∷ ns) c =
      let one = prefix_read-Continues n c.prefix c.conn in
      let next = (prefix_read n c).2 in
      let rest = prefix_reads-stream_of ns next in
      (
        one.0
            ∙ ap (λ t. (prefix_read n c).0 ++ t) rest.0
            ∙ sym (
                append_assoc (prefix_read n c).0 (prefix_reads ns next).0
                  (stream_of (prefix_reads ns next).1)),
        rest.1,
      )
