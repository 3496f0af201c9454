-- ===== src/Examples/Hearing.antt =====
-- The theorems on listens at a script with one listen.
use sakura_slemu.Base.{◌≡◌, [], ◌∷◌, ◌++◌, replicate, codes, pos, arith}
use sakura_slemu.Value.{integer, string}
use sakura_slemu.Region.Queue.{hear, heard}
use sakura_slemu.Region.Delivery.{count_if}
use sakura_slemu.Builtins.Listens.{bi_ll_listen, bi_ll_listen_remove, bi_ll_listen_control}
use sakura_slemu.Builtins.Hearing.{still_hears, hear-listen_control, bi_ll_listen_remove-listen}
use sakura_slemu.Examples.Running.{int_double}
use sakura_slemu.Examples.Places.{listener}

hear-listen_control_example :
    (hear
      (pos 5)
      (codes "Bob")
      (codes "bob")
      (codes "hi")
      (bi_ll_listen_control int_double (integer (pos 1) ∷ integer (pos 0) ∷ []) listener)).evq
    ≡ listener.evq
      ++ replicate
          (count_if
            (still_hears (pos 5) (codes "Bob") (codes "bob") (codes "hi") (pos 1))
            listener.listens)
          (heard (pos 5) (codes "Bob") (codes "bob") (codes "hi"))
hear-listen_control_example =
    hear-listen_control int_double (pos 5) (codes "Bob") (codes "bob") (codes "hi") (pos 1) listener
      (omega arith, omega arith)

bi_ll_listen_remove-listen_example :
    (let opened =
        bi_ll_listen int_double (pos 2) (integer (pos 7) ∷ string (codes "Bob") ∷ []) listener in
      bi_ll_listen_remove int_double (opened.result ∷ []) opened.script)
    ≡ listener
bi_ll_listen_remove-listen_example =
    bi_ll_listen_remove-listen int_double (pos 2) (integer (pos 7) ∷ string (codes "Bob") ∷ [])
      listener (omega arith, omega arith)
