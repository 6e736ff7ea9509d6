-- ===== src/Term/Tests.antt =====
-- term.c on concrete messages.
use libdill.Base.{true, false, List, []}
use libdill.Term.{TermSock}

abbrev sock : TermSock
sock = record { u = 4; buf = []; indone = false; outdone = false; mem = true }
