-- ===== src/TcpServerSocket/Closing.antt =====
-- How often a descriptor is closed, and whether its slot comes free.
use network_structure.Prelude.{
  ℕ, suc, ◌+◌, ◌≡◌, refl, ◌∙◌, true, List, [], ◌∷◌, arith, length, if◌then◌else◌,
}
use network_structure.Prelude.Int.{ℤ, eq_ℤ, is_positive}
use network_structure.FdManager.{delete, find, mem_fd, erase_first, clear_all, get_total_count}
use network_structure.FdManager.Counts.{count}
use network_structure.TcpServerSocket.{
  SocketCall, shuts, closes, read_end, read_reset, Net, check_fd, close_each, close_all_connections,
}
use network_structure.TcpServerSocket.Threads.{Servers, by_device, concurrent_end, concurrent_read}

-- How often a trace closes a descriptor.
abbrev pub closings : ℤ → List SocketCall → ℕ
closings fd [] = 0
closings fd (closes j ∷ cs) = (if eq_ℤ j fd then 1 else 0) + closings fd cs
closings fd (_ ∷ cs) = closings fd cs

close_each-closings :
    (x : ℤ) (fds : List ℤ) (cs : List SocketCall)
    → closings x (close_each fds cs) ≡ count x fds + closings x cs
unfolding close_each count
close_each-closings x [] cs = omega arith
close_each-closings x (fd ∷ fds) cs =
    ground (arith, close_each-closings x fds (closes fd ∷ shuts fd 2 ∷ cs))

-- `CloseAllConnections` closes each descriptor as often as it is in the vector and no other, and
-- leaves the vector empty.
pub close_all_connections-closings :
    (n : Net) (x : ℤ)
    → (closings x (close_all_connections n).calls
        ≡ count x n.endpoint.fds.fd_vec + closings x n.calls)
      × (get_total_count (close_all_connections n).endpoint.fds ≡ 0)
unfolding close_all_connections clear_all get_total_count
close_all_connections-closings n x = (close_each-closings x n.endpoint.fds.fd_vec n.calls, refl)

length-erase_first :
    (fd : ℤ) (xs : List ℤ) → mem_fd fd xs ≡ true → suc (length (erase_first fd xs)) ≡ length xs
unfolding mem_fd erase_first
length-erase_first fd [] h = ground arith
length-erase_first fd (x ∷ xs) h = ground (arith, length-erase_first fd xs)

-- A descriptor that the device server holds, where its peer ends the connection and where its peer
-- resets it. Both close it once. The end frees its slot. The reset leaves it in the vector, so the
-- slot stays taken, and `CloseAllConnections` then closes the descriptor again.
pub reset_keeps_slot :
    (fd : ℤ) (s : Servers)
    → mem_fd fd s.device.fds.fd_vec ≡ true
    → is_positive fd ≡ true
    → (closings fd (concurrent_read read_end fd s).calls ≡ suc (closings fd s.calls))
      × (suc (get_total_count (concurrent_read read_end fd s).device.fds)
          ≡ get_total_count s.device.fds)
      × (closings fd (concurrent_read read_reset fd s).calls ≡ suc (closings fd s.calls))
      × (get_total_count (concurrent_read read_reset fd s).device.fds
          ≡ get_total_count s.device.fds)
      × (closings fd (by_device close_all_connections (concurrent_read read_reset fd s)).calls
          ≡ count fd s.device.fds.fd_vec + suc (closings fd s.calls))
unfolding concurrent_read concurrent_end check_fd find delete get_total_count close_all_connections
reset_keeps_slot fd s m p = (
  ground (arith, m, p),
  ground (arith, m, p, length-erase_first fd s.device.fds.fd_vec),
  ground (arith, m, p),
  refl,
  close_each-closings fd s.device.fds.fd_vec (concurrent_read read_reset fd s).calls ∙ ground arith,
)
