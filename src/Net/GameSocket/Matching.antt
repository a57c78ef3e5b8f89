-- ===== src/Net/GameSocket/Matching.antt =====
-- src/data/packets/all.cpp: the switch over every packet that the server sends.
use globed.Common.{◌≡◌, refl, some, All}
use globed.Net.GameSocket.{match_packet}
use globed.Packets.Base.{PacketClass}
use globed.Packets.Server.{server_packets}

-- Every packet class of the server that the switch names is found under its id: no two of the 36
-- classes share an id, and so no case hides another.
match_packet-server_packets :
    All (λ (c : PacketClass). match_packet server_packets c.id ≡ some c) server_packets
unfolding match_packet
match_packet-server_packets = (
  refl,
  (
    refl,
    (
      refl,
      (
        refl,
        (
          refl,
          (
            refl,
            (
              refl,
              (
                refl,
                (
                  refl,
                  (
                    refl,
                    (
                      refl,
                      (
                        refl,
                        (
                          refl,
                          (
                            refl,
                            (
                              refl,
                              (
                                refl,
                                (
                                  refl,
                                  (
                                    refl,
                                    (
                                      refl,
                                      (
                                        refl,
                                        (
                                          refl,
                                          (
                                            refl,
                                            (
                                              refl,
                                              (
                                                refl,
                                                (
                                                  refl,
                                                  (
                                                    refl,
                                                    (
                                                      refl,
                                                      (
                                                        refl,
                                                        (
                                                          refl,
                                                          (
                                                            refl,
                                                            (
                                                            refl,
                                                            (
                                                            refl,
                                                            (refl, (refl, (refl, (refl, tt)))),
                                                            ),
                                                            ),
                                                          ),
                                                        ),
                                                      ),
                                                    ),
                                                  ),
                                                ),
                                              ),
                                            ),
                                          ),
                                        ),
                                      ),
                                    ),
                                  ),
                                ),
                              ),
                            ),
                          ),
                        ),
                      ),
                    ),
                  ),
                ),
              ),
            ),
          ),
        ),
      ),
    ),
  ),
)
