-- ===== src/Client/Main.antt =====
-- client/client_test_main.cpp: the test client.
use fap2_srv.Prelude.{Text, Option, List}
use fap2_srv.Client.{Net, new_base_client}
use fap2_srv.Client.Console.{Shown, console}

-- main: a client that is not connected, and its loop on lines of input.
unfoldable pub client_test_main : {N : Type 0} → Net N → List (Option Text) → N → List Shown × N
unfolding new_base_client console
client_test_main net inputs n = let (c, m) = new_base_client net n in console net c inputs m
