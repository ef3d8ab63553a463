-- ===== src/Mock/Link.antt =====
-- A connection between the client and the mock server, in memory: what the client writes reaches
-- `handle`, and what that writes the client reads. It fills the client's transport.
pub mod Calls
pub mod Registers
pub mod Coils
pub mod Singles
pub mod Refusals
use otcat.Base.{
  ℕ, ◌+◌, ◌≤◌, ◌<◌, ◌≡◌, refl, ◌∙◌, Bool, true, false, Option, some, none, List, ◌++◌, arith, ltb,
  length, take, drop, min, if◌then◌else◌, length-take, leb, ◌==◌,
}
use otcat.Base.Bytes.{Bytes}
use otcat.Errors.{NetError, IoResult, done, failed, net, eof, unexpected_eof}
use otcat.Modbus.Transport.{Transport}
use otcat.Mock.Connection.{Peer, handle}

-- A write to an open connection is handled to its end; every round takes a byte at least. A write to a
-- connection that the peer has closed is accepted, and its bytes are lost: the next read finds out.
unfoldable pub link_write : Peer → Bytes → Option NetError × Peer
link_write k frame =
    let arrived : Peer = record k { inbound = k.inbound ++ frame } in
    if k.is_open then (none, handle (length arrived.inbound) arrived) else (none, k)

-- A read of more than is there meets the end of the stream, or its deadline if the peer is open.
unfoldable pub link_read_full : Peer → ℕ → IoResult Bytes × Peer
link_read_full k n =
    if leb n (length k.outbound)
    then (done (take n k.outbound), record k { outbound = drop n k.outbound })
    else (
      failed
          (if k.is_open then net true else if length k.outbound == 0 then eof else unexpected_eof),
      record k { outbound = List.[] },
    )

pub link_read_full_fills :
    (k : Peer) (n : ℕ) (b : Bytes) → (link_read_full k n).0 ≡ done b → length b ≡ n
unfolding link_read_full
link_read_full_fills k n b h = ground (arith, length-take n k.outbound)

abbrev pub link : Transport
link = record {
  Conn = Peer;
  set_deadline = λ _. none;
  write = link_write;
  read_full = link_read_full;
  close = λ _. none;
  read_full_fills = link_read_full_fills;
}
