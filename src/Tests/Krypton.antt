-- ===== src/Tests/Krypton.antt =====
-- Connections over TLS, at concrete inputs.
use devicectrl_server.Prelude.{ℕ, List, [], ◌∷◌, ok}
use devicectrl_server.Common.{ServerBoundKryptonMessage, DeviceBoundKryptonMessage}
use devicectrl_server.Krypton.Codec.{KryptonCodec, Framed}
use devicectrl_server.Krypton.Connection.{Turn, received, requested, serve}
use devicectrl_server.Krypton.Delivery.{IsService, serve-IsService}
use devicectrl_server.Tests.Instance.{plain, calm}
use devicectrl_server.Tests.Automations.{turned_on}

instance abbrev pub krypton_codec : KryptonCodec
krypton_codec = record {
  decode = λ bytes. ok ServerBoundKryptonMessage.request_received;
  encode = λ m. ok (1 ∷ []);
  failure_of = λ x. DeviceBoundKryptonMessage.other "failure";
}

instance abbrev open_stream : Framed
open_stream = record { send = λ n bytes. ok tt }

abbrev query : ℕ → DeviceBoundKryptonMessage
query id = DeviceBoundKryptonMessage.state_query id

abbrev turns : List Turn
turns = requested (query 2) ∷ received [] ∷ requested (query 1) ∷ requested (query 2) ∷ []

serve-IsService_example : IsService 2 turned_on (serve 2 0 turns turned_on)
serve-IsService_example = serve-IsService 2 0 turns turned_on
