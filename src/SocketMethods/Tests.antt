-- ===== src/SocketMethods/Tests.antt =====
-- The methods of sockets at concrete calls.
use uringio.Base.{false, ◌==◌, if◌then◌else◌, ◌≡◌, refl, pos, true, none, some, []}
use uringio.Enums.{zero_copy}
use uringio.Methods.Rules.{Ends}
use uringio.Methods.Tests.{called_from, start, start-IsValid, start-Has, no_timeout}
use uringio.SocketMethods.{Net, serialize_address}
use uringio.SocketMethods.Rules.{Admits}
use uringio.SocketMethods.Addresses.{Serialized, serialize_address-Serialized}
use uringio.SocketMethods.Plain.{call_socket, CallEnded, bind}
use uringio.SocketMethods.Plain.All.{call_socket-Ended}
use uringio.SocketMethods.Calls.{uringio_socket_listen, uringio_socket_accept, uringio_prep_socket}
use uringio.SocketMethods.Transfers.{SendtoArgs}
use uringio.SocketMethods.Creating.{Admitted, PrepEnded, uringio_prep_socket-PrepEnded}
use uringio.SocketMethods.Accepting.{AcceptEnded, uringio_socket_accept-AcceptEnded}

-- The only host that `inet_pton` reads is 7.
abbrev net : Net
net = record {
  transfer_mode = zero_copy;
  is_uringio = true;
  new_socket = λ steps. some 6;
  inet_pton = λ family host. if host == 7 then some 2130706433 else none;
  sizeof_sockaddr_storage = pos 128;
  sizeof_sockaddr_in = 16;
  sizeof_sockaddr_in6 = 28;
  sizeof_socklen = pos 4;
  sizeof_msghdr = pos 56;
  sizeof_msghdr_iovec = pos 72;
}

-- Called from another thread, a method sets an exception and does nothing else.
listen_elsewhere :
    uringio_socket_listen (called_from (pos 2)) net (some (pos 5, some no_timeout)) start
    ≡ some (none, record start { heap = record { steps = []; error = true } })
unfolding uringio_socket_listen
listen_elsewhere = refl

serialize_address-Serialized_example :
    Ends
      (serialize_address (called_from (pos 1)) net (some 7) (pos 8080) (pos 2) start)
      (Serialized (called_from (pos 1)) net (some 7) (pos 8080) (pos 2) start [])
serialize_address-Serialized_example =
    serialize_address-Serialized (called_from (pos 1)) net (some 7) (pos 8080) (pos 2) start []
      start-Has

call_socket-Ended_example :
    Ends
      (call_socket (called_from (pos 1)) net (bind (some (7, pos 8080, some no_timeout))) start)
      (λ r u.
        CallEnded
          (called_from (pos 1))
          net
          start
          []
          (bind (some (7, pos 8080, some no_timeout)))
          r
          u
        × Admits (called_from (pos 1)) net start r)
call_socket-Ended_example =
    call_socket-Ended (called_from (pos 1)) net start []
      (bind (some (7, pos 8080, some no_timeout))) false refl start-IsValid start-Has

uringio_socket_accept-AcceptEnded_example :
    Ends (uringio_socket_accept (called_from (pos 1)) net (some (some no_timeout)) start) (λ r u.
      AcceptEnded (called_from (pos 1)) net start [] (some (some no_timeout)) r u
      × Admits (called_from (pos 1)) net start r)
uringio_socket_accept-AcceptEnded_example =
    uringio_socket_accept-AcceptEnded (called_from (pos 1)) net start [] (some (some no_timeout))
      false refl start-IsValid start-Has

uringio_prep_socket-PrepEnded_example :
    Ends
      (uringio_prep_socket (called_from (pos 1)) net (some (pos 2, pos 1, some no_timeout)) start)
      (λ r u.
        PrepEnded (called_from (pos 1)) net start [] (some (pos 2, pos 1, some no_timeout)) r u
        × Admitted (called_from (pos 1)) net start [] r)
uringio_prep_socket-PrepEnded_example =
    uringio_prep_socket-PrepEnded (called_from (pos 1)) net start []
      (some (pos 2, pos 1, some no_timeout)) false refl start-IsValid start-Has

abbrev datagram : SendtoArgs
datagram = record { from = 7; host = 7; port = pos 8080; domain = pos 2; is_poll_first = true }
