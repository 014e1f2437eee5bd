-- ===== src/Rtp/Channel/Recovery.antt =====
-- Both pairs of loops where everything that was under way has been lost.
use networking_labs.Rtp.Receiver.{Receiver}
use networking_labs.Rtp.Sender.{Sender}
use networking_labs.Rtp.Channel.Protocol.{Protocol}
use networking_labs.Rtp.Channel.Selective
