-- ===== src/ConnectionFactory.antt =====
-- src/ConnectionFactory.hpp: makes the connections of an interface, whose queues notify the same
-- semaphore. The filter of a connection is the parameter `judge` of src/Connection.cpp's model, so a
-- factory keeps only that it has one.
use mavtables.Prelude.{ℕ, Bool, true, Option, none, some, Bytes, if◌then◌else◌}
use mavtables.Prelude.Exception.{Result, ok, err, invalid_argument}
use mavtables.Semaphore
use mavtables.Semaphore.{Semaphore}
use mavtables.PacketQueue
use mavtables.AddressPool
use mavtables.Connection
use mavtables.Connection.{Connection}

pub record ConnectionFactory : Type 0 where
  pub filter_given : Bool
  pub mirror : Bool
  pub semaphore : Semaphore

unfoldable pub make : Bool → Bool → Result ConnectionFactory
unfolding Semaphore.make
make filter_given mirror =
    if filter_given
    then ok (record { filter_given = filter_given; mirror = mirror; semaphore = Semaphore.make 0 })
    else err invalid_argument

-- The default of the address pool is 120 seconds.
module _ (timeout : ℕ) where
  unfoldable pub get : Bytes → ConnectionFactory → Result Connection
  unfolding Connection.make
  get name f =
      Connection.make name f.filter_given f.mirror (some (AddressPool.make timeout))
        (some (PacketQueue.make true))

abbrev waited : ConnectionFactory → Option (Bool × Semaphore) → Option (Bool × ConnectionFactory)
waited f none = none
waited f (some (r, s)) = some (r, record f { semaphore = s })

unfoldable pub wait_for_packet : Bool → ConnectionFactory → Option (Bool × ConnectionFactory)
unfolding Semaphore.wait_for
wait_for_packet expired f = waited f (Semaphore.wait_for expired f.semaphore)
