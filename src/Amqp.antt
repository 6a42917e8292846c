-- ===== src/Amqp.antt =====
-- rabbitmq/amqp_cli.cpp and rabbitmq/amqp_recv.cpp: the connection to RabbitMQ and the thread that
-- receives messages; and the sending of rabbitmq/amqp_rpc.cpp, whose slots are in Rpc.
pub mod Client
pub mod Receiver
pub mod Sender
pub mod Ask
