-- ===== src/Multicat/Sockets.antt =====
-- multicat.c, the handlers of sockets, FIFOs and devices: `Poll`, `tcp_Read`, `udp_Read`, `stream_Read`,
-- `raw_Write`, `udp_Write` and `stream_Write`. What the system answers is an argument, and so are the
-- dates that `pf_Date` gives.
use multicat_supervisor.Base.{
  ℕ, ◌-◌, Bool, true, false, not, ◌&&◌, Option, none, some, List, [], ◌∷◌, ◌++◌, ◌==◌,
  if◌then◌else◌, length, take, Bytes,
}
use multicat_supervisor.Io.{Sent, sent, transient, broken, Read, bytes, nothing, failure}

-- The static variables: `i_stc`, `i_first_stc`, `i_udp_nb_skips` or `i_stream_nb_skips`, `b_die`, and the
-- part of `p_tcp_buffer` that is filled.
pub record Source : Type 0 where
  pub stc : ℕ
  pub first_stc : ℕ
  pub nb_skips : ℕ
  pub die : Bool
  pub tcp_buffer : Bytes

-- How `poll` ends.
pub data Polled : Type 0 where
  ready timeout poll_error : Polled

-- `Poll`
unfoldable pub poll : Polled → Source → Bool × Source
poll ready st = (true, st)
poll timeout st = (false, st)
poll poll_error st = (false, record st { die = true })

-- What `recv` puts behind the part that is there; the result is empty until the buffer is full.
unfoldable pub tcp_filled : ℕ → ℕ → Bytes → Source → Bytes × Source
tcp_filled len now bs st =
    let filled = st.tcp_buffer ++ take (len - length st.tcp_buffer) bs in
    if length filled == len
    then (filled, record st { stc = now; tcp_buffer = [] })
    else ([], record st { stc = now; tcp_buffer = filled })

-- `tcp_Read`
unfoldable pub tcp_read : ℕ → ℕ → Read → Source → Bytes × Source
unfolding tcp_filled
tcp_read len now failure st = ([], record st { die = true })
tcp_read len now nothing st = tcp_filled len now [] st
tcp_read len now (bytes bs) st = tcp_filled len now bs st

-- `recv` on another socket, or `read`
unfoldable pub plain_read : ℕ → ℕ → Read → Source → Option Bytes × Source
plain_read len now failure st = (none, record st { die = true })
plain_read len now nothing st = (some [], record st { stc = now })
plain_read len now (bytes bs) st = (some (take len bs), record st { stc = now })

-- The packets that -s skips; an error has returned before.
unfoldable pub skip : Option Bytes × Source → Bytes × Source
skip (none, st) = ([], st)
skip (some bs, st) =
    if st.nb_skips == 0 then (bs, st) else ([], record st { nb_skips = st.nb_skips - 1 })

-- The first date is taken before the first packet that is not skipped.
abbrev pub started : ℕ → Source → Source
started now st = if st.nb_skips == 0 && st.first_stc == 0 then record st { first_stc = now } else st

-- `udp_Read` with the size `len`, over TCP if `tcp`, at the dates `now` and `later`.
unfoldable pub udp_read : ℕ → Bool → ℕ → ℕ → Polled → Read → Source → Bytes × Source
udp_read len tcp now later polled answer st =
    let (readable, st') = poll polled (started now st) in
    if not readable
    then ([], record st' { stc = later })
    else if tcp
    then (let (bs, st'') = tcp_read len later answer st' in skip (some bs, st''))
    else skip (plain_read len later answer st')

-- `stream_Read`
unfoldable pub stream_read : ℕ → ℕ → ℕ → Polled → Read → Source → Bytes × Source
stream_read len now later polled answer st =
    let (readable, st') = poll polled (started now st) in
    if not readable
    then ([], record st' { stc = later })
    else skip (plain_read len later answer st')

-- `udp_Write` and `raw_Write`: whether `b_die` is set.
unfoldable pub udp_write : Sent → Bool → Bool
udp_write sent die = die
udp_write transient die = die
udp_write broken die = true

-- `stream_Write` on the answers of `write` in turn: it tries again while they pass, and `none` is that
-- it still does.
unfoldable pub stream_write : List Sent → Bool → Option Bool
stream_write [] die = none
stream_write (sent ∷ answers) die = some die
stream_write (broken ∷ answers) die = some true
stream_write (transient ∷ answers) die = stream_write answers die
