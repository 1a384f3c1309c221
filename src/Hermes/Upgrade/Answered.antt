-- ===== src/Hermes/Upgrade/Answered.antt =====
-- The upgrade reads the server's answer and nothing of what follows it.
use xolis.Base.{
  ℕ, zero, suc, ◌≤◌, ◌≡◌, refl, sym, ap, ◌∙◌, true, false, [], ◌∷◌, ◌++◌, append_assoc, append-nil,
  length, join, arith,
}
use xolis.Base.Result.{Result, ok, err}
use xolis.Text.{Text}
use xolis.Hermes.Frame.{Bytes, Connection, Received}
use xolis.Hermes.Frame.Reading.{IsOpen, read_exact-Reads}
use xolis.Hermes.Upgrade.{
  UpgradeError, refused, has_end, read_answer, is_accepted, websocket_connect,
}

-- An answer up to its first empty line.
pub record IsHeader (header : Bytes) : Type 0 where
  pub ended : has_end header ≡ true
  pub first : (a b : Bytes) (c : ℕ) → a ++ (c ∷ b) ≡ header → has_end a ≡ false

-- The answer is read, and a given stream is left.
pub record ReadsAnswer (r : Result UpgradeError Received) (header rest : Bytes) : Type 0 where
  pub after : Connection
  pub result : r ≡ ok (record { bytes = header; rest = after })
  pub is_open : IsOpen after
  pub stream : join after ≡ rest

module _ (header rest : Bytes) (h : IsHeader header) where
  answered :
      (room : ℕ) (response : Bytes) (connection : Connection)
      → response ≡ header
      → IsOpen connection
      → join connection ≡ rest
      → ReadsAnswer (read_answer room response connection) header rest
  unfolding read_answer
  answered room response connection e o s = by_room room
    where
      ended : has_end response ≡ true
      ended = ap has_end e ∙ h.ended

      same :
          ◌≡◌ {A = Result UpgradeError Received}
            (ok (record { bytes = response; rest = connection }))
            (ok (record { bytes = header; rest = connection }))
      same = ap (λ b. ok (record { bytes = b; rest = connection })) e

      by_room : (room : ℕ) → ReadsAnswer (read_answer room response connection) header rest
      by_room zero = record { after = connection; result = rw ended same; is_open = o; stream = s }
      by_room (suc room) = record {
        after = connection;
        result = rw ended same;
        is_open = o;
        stream = s;
      }

  read_answer-ReadsAnswer :
      (todo : Bytes) (room : ℕ) (response : Bytes) (connection : Connection)
      → response ++ todo ≡ header
      → length todo ≤ room
      → IsOpen connection
      → join connection ≡ todo ++ rest
      → ReadsAnswer (read_answer room response connection) header rest
  unfolding read_answer
  read_answer-ReadsAnswer [] room response connection e l o s =
      answered room response connection (sym (append-nil response) ∙ e) o s
  read_answer-ReadsAnswer (c ∷ todo) zero response connection e l o s = absurd (omega arith)
  read_answer-ReadsAnswer (c ∷ todo) (suc room) response connection e l o s =
      let r = read_exact-Reads 1 (c ∷ []) (todo ++ rest) connection refl o s in
      rw (h.first response todo c e, r.result)
        (read_answer-ReadsAnswer todo room (response ++ (c ∷ [])) r.after
          (append_assoc response (c ∷ []) todo ∙ e) (omega arith) r.is_open r.stream)

-- What a connection that is upgraded is: it has the stream that follows the answer, and nothing of it
-- is lost.
pub record Upgrades (r : Result UpgradeError Connection) (rest : Bytes) : Type 0 where
  pub after : Connection
  pub result : r ≡ ok after
  pub is_open : IsOpen after
  pub stream : join after ≡ rest

-- An answer of at most 16384 bytes up to its first empty line, in whatever segments it comes, upgrades
-- the connection if it has the status 101 and the digest of the key, leaving just what follows it on
-- the stream, and is refused otherwise.
pub websocket_connect-Upgrades :
    (expected_accept : Text) (header rest : Bytes) (connection : Connection)
    → IsHeader header
    → length header ≤ 16384
    → IsOpen connection
    → join connection ≡ header ++ rest
    → (is_accepted expected_accept header ≡ true
        → Upgrades (websocket_connect expected_accept connection) rest)
      × (is_accepted expected_accept header ≡ false
          → websocket_connect expected_accept connection ≡ err refused)
unfolding websocket_connect
websocket_connect-Upgrades expected_accept header rest connection h l o s =
    let r = read_answer-ReadsAnswer header rest h header 16384 [] connection refl l o s in
    (
      λ a. record {
        after = r.after;
        result = rw (r.result, a) refl;
        is_open = r.is_open;
        stream = r.stream;
      },
      λ a. rw (r.result, a) refl,
    )
